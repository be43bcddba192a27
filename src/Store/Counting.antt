-- ===== src/Store/Counting.antt =====
-- The counters of an endpoint agree with the messages in its mailbox, after every operation.
use vvagent.Base.{
  ℕ, ◌≡◌, ◌≢◌, refl, sym, ap, subst, ◌∙◌, inl, inr, Bool, true, arith, if◌then◌else◌, length, keep,
  In, Bool-cases,
}
use vvagent.Identity.Opaque.{Opaque, opaque_eq, opaque_eq_refl}
use vvagent.Message.State.{queued}
use vvagent.Store.Tables.{Store, EndpointRow, Message, is_endpoint}
use vvagent.Store.Rows.{update, total, In-update, keep-update, total-update}
use vvagent.Store.Queries.{occupies, counted, recount}
use vvagent.Store.Receive.{reclaim, lapsed, release}

abbrev pub pending_count_of : Store → Opaque → ℕ
pending_count_of s id = length (keep (occupies id) s.messages)

abbrev pub pending_bytes_of : Store → Opaque → ℕ
pending_bytes_of s id = total (occupies id) (λ m. m.bytes) s.messages

abbrev pub RowCounted : Store → EndpointRow → Type 0
RowCounted s e =
    (e.pending_count ≡ pending_count_of s e.endpoint_id)
    × (e.pending_bytes ≡ pending_bytes_of s e.endpoint_id)

-- Each endpoint's counters are the number and the bytes of the pending messages to it.
abbrev pub Counted : Store → Type 0
Counted s = (e : EndpointRow) → In e s.endpoints → RowCounted s e

-- Two stores in which an endpoint has the same load.
abbrev pub SameLoad : Store → Store → Opaque → Type 0
SameLoad s t id =
    (pending_count_of t id ≡ pending_count_of s id)
    × (pending_bytes_of t id ≡ pending_bytes_of s id)

-- An update of the messages that keeps what occupies this endpoint's mailbox keeps its load.
pub update-SameLoad :
    (p : Message → Bool) (f : Message → Message) (s : Store) (id : Opaque)
    → ((m : Message)
        → In m s.messages
        → p m ≡ true
        → (occupies id (f m) ≡ occupies id m) × ((f m).bytes ≡ m.bytes))
    → SameLoad s (record s { messages = update p f s.messages }) id
update-SameLoad p f s id h = (
  keep-update p (occupies id) f s.messages (λ m i e. (h m i e).0),
  total-update p (occupies id) f (λ m. m.bytes) s.messages h,
)

pub same_row :
    (s t : Store) (e : EndpointRow) → SameLoad s t e.endpoint_id → RowCounted s e → RowCounted t e
same_row s t e h c = (c.0 ∙ sym h.0, c.1 ∙ sym h.1)

-- An operation that moves only messages between pending states keeps every counter.
pub update-Counted :
    (p : Message → Bool) (f : Message → Message) (s : Store)
    → ((id : Opaque) (m : Message)
        → In m s.messages
        → p m ≡ true
        → (occupies id (f m) ≡ occupies id m) × ((f m).bytes ≡ m.bytes))
    → Counted s
    → Counted (record s { messages = update p f s.messages })
update-Counted p f s h c e i =
    same_row s (record s { messages = update p f s.messages }) e
      (update-SameLoad p f s e.endpoint_id (h e.endpoint_id)) (c e i)

-- A recount repairs one endpoint, so the others must be right already.
abbrev pub CountedBut : Opaque → Store → Type 0
CountedBut id s = (e : EndpointRow) → In e s.endpoints → e.endpoint_id ≢ id → RowCounted s e

pub recount-Counted : (id : Opaque) (s : Store) → CountedBut id s → Counted (recount id s)
unfolding recount
recount-Counted id s h e i =
    let (x, m, q) = In-update (is_endpoint id) (counted s) e s.endpoints i in
    elim (Bool-cases (is_endpoint id x)) [
      | inl here' ↦
          let same : e ≡ counted s x = q ∙ ap (λ (b : Bool). if b then counted s x else x) here' in
          subst (RowCounted (recount id s)) (sym same) (refl, refl)
      | inr other ↦
          let same : e ≡ x = q ∙ ap (λ (b : Bool). if b then counted s x else x) other in
          let far : x.endpoint_id ≢ id = λ (k : x.endpoint_id ≡ id).
            cc (other, ap (λ (y : Opaque). opaque_eq y id) k, opaque_eq_refl id) in
          subst (RowCounted (recount id s)) (sym same) (h x m far)
    ]

pub reclaim-Counted : (now : ℕ) (s : Store) → Counted s → Counted (reclaim now s)
unfolding reclaim
reclaim-Counted now s = update-Counted (lapsed now) (release queued) s (λ id m i e. ground arith)
