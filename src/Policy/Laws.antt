-- ===== src/Policy/Laws.antt =====
-- What the gates admit, and how the decision moves with the policy.
use vvagent.Base.{
  ◌≡◌, ◌≢◌, refl, sym, subst, ◌∙◌, ◌⊎◌, inl, inr, ◌↔◌, Bool, true, ◌&&◌, ◌||◌, not, arith,
  Bool-cases, or-eq-true,
}
use vvagent.Message.PrincipalKind.{PrincipalKind, local_user, peer, is_peer, is_local_user}
use vvagent.Policy.Defs.{
  Gate, Admit, Policy, Request, Decision, nobody, replies_only, replies_and_team,
  replies_and_trusted, anyone, names_trusted, teammates, is_nobody, is_visibility, is_trusting,
  evaluate_peer, evaluate_local, evaluate_admit, by_admit, evaluate,
}
use vvagent.Policy.Admission.{Trusted, Team, Trusted-iff, team_iff}

-- The rule that a gate follows, where the gate is no switch.
abbrev pub Governs : Policy → Gate → Admit → Type 0
Governs p g a =
    ((g ≡ Gate.enqueue) × (p.enqueue ≡ a))
    ⊎ ((g ≡ Gate.make_visible) × (p.make_visible ≡ a))
    ⊎ ((g ≡ Gate.activate) × (p.activate ≡ a))

pub evaluate_governed :
    (p : Policy) (g : Gate) (a : Admit) (r : Request)
    → Governs p g a
    → evaluate p g r ≡ evaluate_admit p g a r
unfolding evaluate
evaluate_governed p g a r (inl (q, h)) = unfold evaluate_admit in ground arith
evaluate_governed p g a r (inr (inl (q, h))) = unfold evaluate_admit in ground arith
evaluate_governed p g a r (inr (inr (q, h))) = unfold evaluate_admit in ground arith

-- Why a sender on a peer host is let through a gate with this rule.
abbrev pub PeerAdmitted : Policy → Admit → Request → Type 0
PeerAdmitted p a r =
    (a ≢ nobody)
    × ((r.is_reply_to_our_request ≡ true)
        ⊎ (((a ≡ anyone) ⊎ (a ≡ replies_and_trusted)) × ((r.peer_trusted ≡ true) ⊎ Trusted p r)))

peer_branch :
    (p : Policy) (g : Gate) (a : Admit) (r : Request)
    → r.sender.kind ≡ peer
    → evaluate_admit p g a r ≡ evaluate_peer p a r
unfolding evaluate_admit is_peer
peer_branch p g a r k = ground arith

local_branch :
    (p : Policy) (g : Gate) (a : Admit) (r : Request)
    → r.sender.kind ≢ peer
    → evaluate_admit p g a r ≡ evaluate_local p g a r
unfolding evaluate_admit is_peer
local_branch p g a r k = ground arith

trust_found :
    (p : Policy) (r : Request)
    → (r.peer_trusted || names_trusted p r) ≡ true
    → (r.peer_trusted ≡ true) ⊎ Trusted p r
trust_found p r h = elim (or-eq-true r.peer_trusted (names_trusted p r) h) [
  | inl e ↦ inl e
  | inr e ↦ inr ((Trusted-iff p r).0 e)
]

trust_counts :
    (p : Policy) (r : Request)
    → (r.peer_trusted ≡ true) ⊎ Trusted p r
    → (r.peer_trusted || names_trusted p r) ≡ true
trust_counts p r (inl e) = ground arith
trust_counts p r (inr t) = ground (arith, (Trusted-iff p r).1 t)

peer_forth :
    (p : Policy) (a : Admit) (r : Request)
    → (evaluate_peer p a r).allowed ≡ true
    → PeerAdmitted p a r
unfolding evaluate_peer
peer_forth p nobody r h = cc
peer_forth p replies_only r h = ((λ e. cc), inl (ground arith))
peer_forth p replies_and_team r h = ((λ e. cc), inl (ground arith))
peer_forth p replies_and_trusted r h = (
  (λ e. cc),
  elim (Bool-cases r.is_reply_to_our_request) [
    | inl e ↦ inl e
    | inr e ↦ inr (inr refl, trust_found p r (ground arith))
  ],
)
peer_forth p anyone r h = (
  (λ e. cc),
  elim (Bool-cases r.is_reply_to_our_request) [
    | inl e ↦ inl e
    | inr e ↦ inr (inl refl, trust_found p r (ground arith))
  ],
)

peer_back :
    (p : Policy) (a : Admit) (r : Request)
    → PeerAdmitted p a r
    → (evaluate_peer p a r).allowed ≡ true
unfolding evaluate_peer
peer_back p a r (n, inl e) = ground arith
peer_back p a r (n, inr (q, t)) = ground (arith, trust_counts p r t)

peer_admit_iff :
    (p : Policy) (g : Gate) (a : Admit) (r : Request)
    → r.sender.kind ≡ peer
    → ((evaluate_admit p g a r).allowed ≡ true) ↔ PeerAdmitted p a r
peer_admit_iff p g a r k = (
  λ h. peer_forth p a r (subst (λ (d : Decision). d.allowed ≡ true) (peer_branch p g a r k) h),
  λ h. subst (λ (d : Decision). d.allowed ≡ true) (sym (peer_branch p g a r k)) (peer_back p a r h),
)

-- A sender on a peer host passes a gate exactly when the gate's rule is not `nobody` and it answers
-- our own request, or the rule admits trust and the peer or this endpoint of it is trusted. No team
-- grant reaches it, and `anyone` is not enough.
pub evaluate-peer_iff :
    (p : Policy) (g : Gate) (a : Admit) (r : Request)
    → Governs p g a
    → r.sender.kind ≡ peer
    → ((evaluate p g r).allowed ≡ true) ↔ PeerAdmitted p a r
evaluate-peer_iff p g a r q k = rw (evaluate_governed p g a r q) (peer_admit_iff p g a r k)

-- Why a process of this account is let through a gate with this rule.
abbrev pub LocalAdmitted : Policy → Gate → Admit → Request → Type 0
LocalAdmitted p g a r =
    ((a ≢ nobody) × (r.is_reply_to_our_request ≡ true))
    ⊎ (a ≡ anyone)
    ⊎ ((a ≡ replies_and_trusted) × (g ≡ Gate.make_visible) × (r.sender.kind ≡ local_user))
    ⊎ ((a ≡ replies_and_trusted) × Trusted p r)
    ⊎ (((a ≡ replies_and_trusted) ⊎ (a ≡ replies_and_team)) × Team p r)

admit_forth :
    (p : Policy) (a : Admit) (r : Request) (g : Gate)
    → (by_admit a (names_trusted p r) (teammates p.team r)).allowed ≡ true
    → LocalAdmitted p g a r
unfolding by_admit
admit_forth p nobody r g h = cc
admit_forth p replies_only r g h = cc
admit_forth p replies_and_team r g h =
    inr (inr (inr (inr (inr refl, (team_iff p r).0 (ground arith)))))
admit_forth p anyone r g h = inr (inl refl)
admit_forth p replies_and_trusted r g h = elim (Bool-cases (names_trusted p r)) [
  | inl t ↦ inr (inr (inr (inl (refl, (Trusted-iff p r).0 t))))
  | inr t ↦ inr (inr (inr (inr (inl refl, (team_iff p r).0 (ground arith)))))
]

operator_facts :
    (k : PrincipalKind) (g : Gate) (a : Admit)
    → (is_local_user k && is_visibility g && is_trusting a) ≡ true
    → (k ≡ local_user) × (g ≡ Gate.make_visible) × (a ≡ replies_and_trusted)
unfolding is_local_user
operator_facts k g a h = ground arith

reply_facts : (b : Bool) (a : Admit) → (b && not (is_nobody a)) ≡ true → (b ≡ true) × (a ≢ nobody)
reply_facts b a h = ground arith

local_forth :
    (p : Policy) (g : Gate) (a : Admit) (r : Request)
    → (evaluate_local p g a r).allowed ≡ true
    → LocalAdmitted p g a r
unfolding evaluate_local is_local_user
local_forth p g a r h =
    elim (Bool-cases (is_local_user r.sender.kind && is_visibility g && is_trusting a)) [
      | inl operator ↦
          let (user, visible, trusting) = operator_facts r.sender.kind g a operator in
          inr (inr (inl (trusting, visible, user)))
      | inr other ↦ elim (Bool-cases (r.is_reply_to_our_request && not (is_nobody a))) [
        | inl replied ↦
            let (yes_reply, open_gate) = reply_facts r.is_reply_to_our_request a replied in
            inl (open_gate, yes_reply)
        | inr fresh ↦ admit_forth p a r g (rw (other, fresh) at h)
      ]
    ]

local_back :
    (p : Policy) (g : Gate) (a : Admit) (r : Request)
    → LocalAdmitted p g a r
    → (evaluate_local p g a r).allowed ≡ true
unfolding evaluate_local is_local_user by_admit
local_back p g a r (inl h) = ground arith
local_back p g a r (inr (inl h)) = ground arith
local_back p g a r (inr (inr (inl h))) = ground arith
local_back p g a r (inr (inr (inr (inl h)))) = ground (arith, (Trusted-iff p r).1 h.1)
local_back p g a r (inr (inr (inr (inr (inl h, t))))) = ground (arith, (team_iff p r).1 t)
local_back p g a r (inr (inr (inr (inr (inr h, t))))) = ground (arith, (team_iff p r).1 t)

-- A sender of this account passes a gate exactly when one of five things holds: it answers our own
-- request and the rule is not `nobody`; the rule is `anyone`; the rule is `replies_and_trusted` and
-- it is the operator making a message visible, or its endpoint is trusted; or it is a teammate and
-- the rule is `replies_and_trusted` or `replies_and_team`.
pub evaluate_local_iff :
    (p : Policy) (g : Gate) (a : Admit) (r : Request)
    → Governs p g a
    → r.sender.kind ≢ peer
    → ((evaluate p g r).allowed ≡ true) ↔ LocalAdmitted p g a r
evaluate_local_iff p g a r q k = (
  λ h. local_forth p g a r (
      subst (λ (d : Decision). d.allowed ≡ true)
        (evaluate_governed p g a r q ∙ local_branch p g a r k) h),
  λ h.
      subst (λ (d : Decision). d.allowed ≡ true)
        (sym (evaluate_governed p g a r q ∙ local_branch p g a r k)) (local_back p g a r h),
)
