-- ===== src/Store/Progress.antt =====
-- `claim_as`: a mailbox that has something to show gives something up.
use vvagent.Base.{
  ℕ, ◌≡◌, refl, sym, ap, ◌∙◌, inl, inr, Bool, true, false, arith, List, [], ◌∷◌, Option, some, keep,
  Bool-cases, Option-cases, In, here, there, In-cons, In-nil, In-keep, In-keep_of,
}
use vvagent.Base.Int.{ℤ}
use vvagent.Error.{Result, ok, err, Result-cases}
use vvagent.Identity.Opaque.{Opaque, opaque_eq→≡}
use vvagent.Policy.Defs.{Rule, Decision, Gate}
use vvagent.Store.Tables.{Store, EndpointRow, Message, Caller, find_endpoint, saturating_add}
use vvagent.Store.Queries.{
  agent_identity, require_current_incarnation, require_peer_authority, message_decision,
}
use vvagent.Store.Receive.{
  claim_as, claim_from, take_candidate, first_visible, by_sequence, claimable, reclaim, claim_lease,
  finish_tx,
}
use vvagent.Store.Settling.{Unique}
use vvagent.Store.Sequence.{by_sequence-In, by_sequence-In_of}
use vvagent.Store.Claiming.{Visible, settled, apply_claim-load}
use vvagent.Store.Claims.{reclaim-Unique, candidate-Oldest, may_claim}

-- A message to a known endpoint is decided.
decided :
    (s : Store) (m : Message) (e : EndpointRow)
    → find_endpoint s m.to_endpoint ≡ some e
    → (d : Decision) × (message_decision s m Gate.make_visible ≡ ok d)
unfolding message_decision
decided s m e found = elim (Result-cases (message_decision s m Gate.make_visible)) [
  | inl (d, q) ↦ (d, q)
  | inr (f, q) ↦ cc (rw (found, message_decision) at q)
]

first_visible-some :
    (s : Store) (ms : List Message) (m : Message)
    → ((n : Message) → In n ms → (d : Decision) × (message_decision s n Gate.make_visible ≡ ok d))
    → In m ms
    → Visible s m
    → (found : Message × Rule) × (first_visible s ms ≡ ok (some found))
unfolding first_visible
first_visible-some s [] m all i v = absurd (In-nil i)
first_visible-some s (x ∷ ms) m all i (d', q', seen) =
    let (d, q) = all x here in
    elim (Bool-cases d.allowed) [
      | inl shown ↦ ((x, d.rule), rw (q, first_visible) (rw shown refl))
      | inr hidden ↦
          let j : In m ms = elim (In-cons i) [
            | inr k ↦ k
            | inl same ↦ absurd (clash d q hidden same)
          ] in
          let (found, r) = first_visible-some s ms m (λ n k. all n (there k)) j (d', q', seen) in
          (found, rw (q, first_visible) (rw hidden r))
    ]
  where
    clash :
        (d : Decision)
        → message_decision s x Gate.make_visible ≡ ok d
        → d.allowed ≡ false
        → m ≡ x
        → ⊥
    clash d q hidden same =
        let both : ok d ≡ ok d' =
          sym q ∙ (ap (λ (y : Message). message_decision s y Gate.make_visible) (sym same) ∙ q') in
        let one : d ≡ d' = cc in ground (arith, ap (λ (y : Decision). y.allowed) one)

bound-known :
    (s : Store) (id incarnation : Opaque)
    → require_current_incarnation s id incarnation ≡ ok tt
    → (e : EndpointRow) × (find_endpoint s id ≡ some e)
unfolding require_current_incarnation
bound-known s id incarnation h = elim (Option-cases (find_endpoint s id)) [
  | inl k ↦ cc (rw (k, require_current_incarnation) at h)
  | inr (e, k) ↦ (e, k)
]

claim_from-some :
    (s : Store) (now : ℕ) (endpoint incarnation : Opaque) (lease : ℕ) (consumes : Bool)
    (m : Message) (e : EndpointRow)
    → Unique s
    → find_endpoint s endpoint ≡ some e
    → In m s.messages
    → claimable now endpoint m ≡ true
    → Visible s m
    → (taken : Message) × ((claim_from now endpoint incarnation lease consumes s).0
        ≡ ok (some taken))
unfolding claim_from take_candidate
claim_from-some s now endpoint incarnation lease consumes m e u known i able v =
    let rows = keep (claimable now endpoint) s.messages in
    let ((n, rule), q) =
      first_visible-some s (by_sequence rows) m each
        (by_sequence-In_of m rows (In-keep_of (claimable now endpoint) m s.messages i able)) v in
    let old = candidate-Oldest s now endpoint n rule q in
    let loaded = apply_claim-load now endpoint incarnation lease consumes n rule s old.0 u in
    (settled incarnation (saturating_add now lease) consumes n, rw (q, claim_from) (rw loaded refl))
  where
    each :
        (n : Message)
        → In n (by_sequence (keep (claimable now endpoint) s.messages))
        → (d : Decision) × (message_decision s n Gate.make_visible ≡ ok d)
    each n j =
        let rows = keep (claimable now endpoint) s.messages in
        let (k, mine) = In-keep (claimable now endpoint) n s.messages (by_sequence-In n rows j) in
        let to : n.to_endpoint ≡ endpoint = opaque_eq→≡ n.to_endpoint endpoint (ground arith) in
        decided s n e (ap (find_endpoint s) to ∙ known)

finish_tx_ok :
    {A : Type 0} (s : Store) (r : Result A × Store) (a : A) → r.0 ≡ ok a → (finish_tx s r).0 ≡ ok a
finish_tx_ok s (err e, after) a h = cc
finish_tx_ok s (ok b, after) a h = h

-- A claim comes back with a message whenever there is one to take: where the caller is its
-- endpoint's live incarnation, and its peer's live bridge if it is a proxy, where message ids are
-- unique, and where, once lapsed claims are back on the queue, a claimable message is visible under
-- the endpoint's policy.
pub claim_as_progress :
    (s : Store) (now : ℕ) (c : Caller) (lease_ms : Option ℤ) (consumes : Bool)
    (endpoint incarnation : Opaque) (m : Message)
    → Unique s
    → agent_identity c ≡ ok (endpoint, incarnation)
    → require_current_incarnation s endpoint incarnation ≡ ok tt
    → require_peer_authority s now c ≡ ok tt
    → In m (reclaim now s).messages
    → claimable now endpoint m ≡ true
    → Visible (reclaim now s) m
    → (taken : Message) × ((claim_as s now c lease_ms consumes).0 ≡ ok (some taken))
unfolding claim_as reclaim find_endpoint
claim_as_progress s now c lease_ms consumes endpoint incarnation m u who live may i able v =
    let allowed : may_claim s now c ≡ ok (endpoint, incarnation) = rw who (rw live (rw may refl)) in
    let (e, known) = bound-known s endpoint incarnation live in
    let (taken, q) =
      claim_from-some (reclaim now s) now endpoint incarnation (claim_lease lease_ms) consumes m e
        (reclaim-Unique now s u) known i able v in
    (taken, rw (allowed, claim_as) (finish_tx_ok s _ (some taken) q))
