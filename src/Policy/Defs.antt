-- ===== src/Policy/Defs.antt =====
-- `Gate`, `Admit`, `Policy`, `Request`, `Decision`, `Rule` and `Policy::evaluate`.
use vvagent.Base.{
  ℕ, Bool, true, false, ◌&&◌, ◌||◌, not, List, [], Option, none, some, Text, if◌then◌else◌, codes,
  any, is_some, is_some_and, option_eq, ◌==◌,
}
use vvagent.Address.Defs.{Address, get, space}
use vvagent.Identity.Opaque.{Opaque, opaque_eq}
use vvagent.Message.PrincipalKind.{is_peer, is_local_user}
use vvagent.Message.Principal.{Principal}
use vvagent.Policy.TeamScope.{TeamScope}

pub data Gate : Type 0 where
  enqueue make_visible activate pty_nudge interrupt : Gate

pub data Admit : Type 0 where
  nobody replies_only replies_and_team replies_and_trusted anyone : Admit

pub record Policy : Type 0 where
  pub enqueue : Admit
  pub make_visible : Admit
  pub activate : Admit
  pub pty_nudge : Bool
  pub interrupt : Bool
  pub trusted : List Opaque
  pub team : TeamScope
  pub max_inbound_per_minute : ℕ
  pub max_auto_turns_per_minute : ℕ
  pub attach : Bool

abbrev pub default_inbound_per_minute : ℕ
default_inbound_per_minute = 60

abbrev pub default_auto_turns_per_minute : ℕ
default_auto_turns_per_minute = 4

abbrev pub default_attach : Bool
default_attach = true

-- `Policy::default`
unfoldable pub default : Policy
default = record {
  enqueue = anyone;
  make_visible = replies_and_trusted;
  activate = replies_and_team;
  pty_nudge = false;
  interrupt = false;
  trusted = [];
  team = TeamScope.runtime_instance;
  max_inbound_per_minute = default_inbound_per_minute;
  max_auto_turns_per_minute = default_auto_turns_per_minute;
  attach = default_attach;
}

pub record Request : Type 0 where
  pub sender : Principal
  pub sender_scope : Option Opaque
  pub target_scope : Opaque
  pub is_reply_to_our_request : Bool
  pub sender_address : Option Address
  pub target_address : Option Address
  pub peer_trusted : Bool

pub data Rule : Type 0 where
  anyone reply team trusted not_admitted disabled : Rule

unfoldable pub rule_as_str : Rule → Text
rule_as_str Rule.anyone = codes "anyone"
rule_as_str Rule.reply = codes "reply"
rule_as_str Rule.team = codes "team"
rule_as_str Rule.trusted = codes "trusted"
rule_as_str Rule.not_admitted = codes "not_admitted"
rule_as_str Rule.disabled = codes "disabled"

pub record Decision : Type 0 where
  pub allowed : Bool
  pub rule : Rule

abbrev pub allow : Rule → Decision
allow rule = record { allowed = true; rule = rule }

abbrev pub refuse : Rule → Decision
refuse rule = record { allowed = false; rule = rule }

-- A gate that is a switch.
unfoldable pub switch : Bool → Decision
switch on = if on then allow Rule.anyone else refuse Rule.disabled

unfoldable pub names_trusted : Policy → Request → Bool
names_trusted p r = is_some_and r.sender.endpoint_id (λ id. any (λ t. opaque_eq t id) p.trusted)

unfoldable pub same_scope : Request → Bool
same_scope r = option_eq opaque_eq r.sender_scope (some r.target_scope)

-- Both sit in one space, which both name.
unfoldable pub same_space : Address → Address → Bool
same_space theirs ours =
    is_some (get ours space) && option_eq ◌==◌ (get theirs space) (get ours space)

unfoldable pub teammates : TeamScope → Request → Bool
unfolding same_scope same_space
teammates TeamScope.off r = false
teammates TeamScope.runtime_instance r = same_scope r
teammates TeamScope.space r = elim r.sender_address [
  | none ↦ same_scope r
  | some theirs ↦ elim r.target_address [ none ↦ same_scope r | some ours ↦ same_space theirs ours ]
]

abbrev pub is_nobody : Admit → Bool
is_nobody nobody = true
is_nobody _ = false

abbrev pub is_trusting : Admit → Bool
is_trusting replies_and_trusted = true
is_trusting _ = false

abbrev pub is_visibility : Gate → Bool
is_visibility make_visible = true
is_visibility _ = false

-- `matches!(admit, Admit::Anyone | Admit::RepliesAndTrusted)`
abbrev pub admits_trust : Admit → Bool
admits_trust anyone = true
admits_trust replies_and_trusted = true
admits_trust _ = false

-- The branch for a sender on a peer host.
unfoldable pub evaluate_peer : Policy → Admit → Request → Decision
evaluate_peer p admit r =
    if is_nobody admit
    then refuse Rule.not_admitted
    else if r.is_reply_to_our_request
    then allow Rule.reply
    else if (r.peer_trusted || names_trusted p r) && admits_trust admit
    then allow Rule.trusted
    else refuse Rule.not_admitted

-- The match at the end, with the two facts that it looks at.
unfoldable pub by_admit : Admit → Bool → Bool → Decision
by_admit anyone by_id same = allow Rule.anyone
by_admit replies_and_trusted by_id same =
    if by_id then allow Rule.trusted else if same then allow Rule.team else refuse Rule.not_admitted
by_admit replies_and_team by_id same = if same then allow Rule.team else refuse Rule.not_admitted
by_admit replies_only by_id same = refuse Rule.not_admitted
by_admit nobody by_id same = refuse Rule.not_admitted

unfoldable pub evaluate_local : Policy → Gate → Admit → Request → Decision
unfolding by_admit
evaluate_local p gate admit r =
    if is_local_user r.sender.kind && is_visibility gate && is_trusting admit
    then allow Rule.anyone
    else if r.is_reply_to_our_request && not (is_nobody admit)
    then allow Rule.reply
    else by_admit admit (names_trusted p r) (teammates p.team r)

-- Behind the choice of the gate's rule.
unfoldable pub evaluate_admit : Policy → Gate → Admit → Request → Decision
unfolding evaluate_peer evaluate_local
evaluate_admit p gate admit r =
    if is_peer r.sender.kind then evaluate_peer p admit r else evaluate_local p gate admit r

unfoldable pub evaluate : Policy → Gate → Request → Decision
unfolding switch evaluate_admit
evaluate p Gate.enqueue r = evaluate_admit p Gate.enqueue p.enqueue r
evaluate p Gate.make_visible r = evaluate_admit p Gate.make_visible p.make_visible r
evaluate p Gate.activate r = evaluate_admit p Gate.activate p.activate r
evaluate p Gate.pty_nudge r = switch p.pty_nudge
evaluate p Gate.interrupt r = switch p.interrupt
