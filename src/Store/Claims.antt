-- ===== src/Store/Claims.antt =====
-- `claim` and `claim_outbound` as a whole: what they take, and that the counters stay right.
use vvagent.Base.{ℕ, ◌<◌, ◌≡◌, refl, Bool, true, Option, none, some, keep, In, In-keep, In-keep_of}
use vvagent.Base.Int.{ℤ}
use vvagent.Error.{Result, ok, err, ◌>>=◌, ◌>>◌}
use vvagent.Identity.Opaque.{Opaque}
use vvagent.Message.State.{queued}
use vvagent.Policy.Defs.{Rule}
use vvagent.Store.Tables.{Store, Message, Caller}
use vvagent.Store.Queries.{agent_identity, require_current_incarnation, require_peer_authority}
use vvagent.Store.Receive.{
  reclaim, lapsed, release, claimable, by_sequence, first_visible, take_candidate, claim_from,
  claim_as, claim_lease,
}
use vvagent.Store.Branches.{After, on_result, on_finish}
use vvagent.Store.Counting.{Counted, reclaim-Counted}
use vvagent.Store.Settling.{Unique, update-Unique}
use vvagent.Store.Sequence.{by_sequence-In, by_sequence-In_of, by_sequence-Sorted}
use vvagent.Store.Claiming.{Visible, Refused, first_visible_lem, apply_claim-Counted}

pub reclaim-Unique : (now : ℕ) (s : Store) → Unique s → Unique (reclaim now s)
unfolding reclaim
reclaim-Unique now s u = update-Unique (lapsed now) (release queued) s (λ m. refl) u

-- The message that a claim of this endpoint must take: claimable and visible, and every claimable
-- message of a lower sequence is hidden by the recipient's policy.
abbrev pub Oldest : Store → ℕ → Opaque → Message → Type 0
Oldest s now endpoint m =
    In m s.messages
    × (claimable now endpoint m ≡ true)
    × Visible s m
    × ((n : Message)
        → In n s.messages
        → claimable now endpoint n ≡ true
        → n.recipient_sequence < m.recipient_sequence
        → Refused s n)

pub candidate-Oldest :
    (s : Store) (now : ℕ) (endpoint : Opaque) (m : Message) (rule : Rule)
    → first_visible s (by_sequence (keep (claimable now endpoint) s.messages)) ≡ ok (some (m, rule))
    → Oldest s now endpoint m
candidate-Oldest s now endpoint m rule h =
    let able = claimable now endpoint in
    let rows = keep able s.messages in
    let (i, v, least) = first_visible_lem s (by_sequence rows) m rule h (by_sequence-Sorted rows) in
    let (j, e) = In-keep able m s.messages (by_sequence-In m rows i) in
    (j, e, v, λ n k a lt. least n (by_sequence-In_of n rows (In-keep_of able n s.messages k a)) lt)

claim_from-Counted :
    (s : Store) (now : ℕ) (endpoint incarnation : Opaque) (lease : ℕ) (consumes : Bool)
    → Unique s
    → Counted s
    → After Counted (claim_from now endpoint incarnation lease consumes s)
unfolding claim_from
claim_from-Counted s now endpoint incarnation lease consumes u c =
    on_result (first_visible s (by_sequence (keep (claimable now endpoint) s.messages))) s err _
      (λ e. c) (λ found q. step found q)
  where
    step :
        (found : Option (Message × Rule))
        → first_visible s (by_sequence (keep (claimable now endpoint) s.messages)) ≡ ok found
        → After Counted (take_candidate now endpoint incarnation lease consumes s found)
    step none q = record { holds = unfold take_candidate in c }
    step (some (m, rule)) q =
        let old = candidate-Oldest s now endpoint m rule q in
        record {
          holds =
              unfold take_candidate in
              apply_claim-Counted now endpoint incarnation lease consumes m rule s old.0 old.1 u c;
        }

-- Who may claim: a bound endpoint's live incarnation, and for a peer its live bridge.
abbrev pub may_claim : Store → ℕ → Caller → Result (Opaque × Opaque)
may_claim s now c = agent_identity c >>= λ who.
    require_current_incarnation s who.0 who.1 >> (require_peer_authority s now c >> ok who)

claim-After :
    (s : Store) (now : ℕ) (c : Caller) (lease_ms : Option ℤ) (consumes : Bool)
    → Unique s
    → Counted s
    → After Counted (claim_as s now c lease_ms consumes)
unfolding claim_as
claim-After s now c lease_ms consumes u h =
    on_result (may_claim s now c) s err _ (λ e. h)
      (λ who q.
        on_finish Counted s
          (claim_from now who.0 who.1 (claim_lease lease_ms) consumes (reclaim now s)) h
          (claim_from-Counted (reclaim now s) now who.0 who.1 (claim_lease lease_ms) consumes
            (reclaim-Unique now s u) (reclaim-Counted now s h)))

-- Claiming keeps the counters right, where message ids are unique.
pub claim_as-Counted :
    (s : Store) (now : ℕ) (c : Caller) (lease_ms : Option ℤ) (consumes : Bool)
    → Unique s
    → Counted s
    → Counted (claim_as s now c lease_ms consumes).1
claim_as-Counted s now c lease_ms consumes u h = (claim-After s now c lease_ms consumes u h).holds
