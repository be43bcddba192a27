-- ===== src/Policy/Bounds.antt =====
-- How far the gates reach: the order of the rules, the closed rule, the reasons, the defaults.
use vvagent.Base.{ℕ, ◌≤◌, ◌≡◌, ◌⊎◌, inl, inr, ◌↔◌, true, false, arith}
use vvagent.Message.PrincipalKind.{peer, is_peer, is_local_user}
use vvagent.Policy.Defs.{
  Gate, Admit, Policy, Request, Rule, nobody, replies_only, replies_and_team, replies_and_trusted,
  anyone, names_trusted, evaluate_admit, evaluate, default,
}

-- How much a rule admits.
abbrev pub reach : Admit → ℕ
reach nobody = 0
reach replies_only = 1
reach replies_and_team = 2
reach replies_and_trusted = 3
reach anyone = 4

-- Whatever one rule lets through, every wider rule lets through as well, at each gate and for each
-- kind of sender.
pub evaluate_admit_mono :
    (p : Policy) (g : Gate) (a b : Admit) (r : Request)
    → reach a ≤ reach b
    → (evaluate_admit p g a r).allowed ≡ true
    → (evaluate_admit p g b r).allowed ≡ true
unfolding evaluate_admit is_peer is_local_user
evaluate_admit_mono p g a b r h k = ground arith

-- The rule `nobody` closes a gate to every sender, replies included.
pub evaluate_admit-nobody :
    (p : Policy) (g : Gate) (r : Request) → (evaluate_admit p g nobody r).allowed ≡ false
unfolding evaluate_admit is_peer is_local_user
evaluate_admit-nobody p g r = ground arith

rule_forth :
    (p : Policy) (g : Gate) (r : Request)
    → (evaluate p g r).allowed ≡ false
    → ((evaluate p g r).rule ≡ Rule.not_admitted) ⊎ ((evaluate p g r).rule ≡ Rule.disabled)
unfolding evaluate is_peer is_local_user
rule_forth p Gate.enqueue r h = ground arith
rule_forth p _ r h = ground arith

rule_back :
    (p : Policy) (g : Gate) (r : Request)
    → ((evaluate p g r).rule ≡ Rule.not_admitted) ⊎ ((evaluate p g r).rule ≡ Rule.disabled)
    → (evaluate p g r).allowed ≡ false
unfolding evaluate is_peer is_local_user
rule_back p Gate.enqueue r h = ground arith
rule_back p _ r h = ground arith

-- The rule that a decision records tells whether it allows: only `not_admitted` and `disabled` refuse.
pub evaluate-rule :
    (p : Policy) (g : Gate) (r : Request)
    → ((evaluate p g r).allowed ≡ false)
      ↔ (((evaluate p g r).rule ≡ Rule.not_admitted) ⊎ ((evaluate p g r).rule ≡ Rule.disabled))
evaluate-rule p g r = (rule_forth p g r, rule_back p g r)

default-peer :
    (g : Gate) (r : Request)
    → r.sender.kind ≡ peer
    → r.is_reply_to_our_request ≡ false
    → r.peer_trusted ≡ false
    → (evaluate default g r).allowed ≡ false
unfolding evaluate default is_peer is_local_user names_trusted
default-peer Gate.enqueue r k n t = ground arith
default-peer _ r k n t = ground arith

-- Under the default policy nobody may nudge a terminal or interrupt a turn, and an untrusted peer
-- host gets through no gate except with an answer to our own request.
pub evaluate-default :
    (g : Gate) (r : Request)
    → ((g ≡ Gate.pty_nudge) ⊎ (g ≡ Gate.interrupt))
      ⊎ ((r.sender.kind ≡ peer) × (r.is_reply_to_our_request ≡ false) × (r.peer_trusted ≡ false))
    → (evaluate default g r).allowed ≡ false
unfolding evaluate default is_peer is_local_user names_trusted
evaluate-default g r (inl (inl q)) = ground arith
evaluate-default g r (inl (inr q)) = ground arith
evaluate-default g r (inr (k, n, t)) = default-peer g r k n t
