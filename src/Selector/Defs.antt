-- ===== src/Selector/Defs.antt =====
-- `Selector`, `QualifiedScope` and `Selector::parse`.
use vvagent.Base.{
  ◌&&◌, ◌++◌, Option, none, some, Text, if◌then◌else◌, codes, is_empty, is_none, unwrap_or,
}
use vvagent.Error.{Result, ok, err, ◌>>=◌, invalid, ok_value, ok_or}
use vvagent.Address.Defs
use vvagent.Address.Defs.{Address}
use vvagent.Identity.Split.{strip_prefix, split_once}
use vvagent.Identity.Opaque
use vvagent.Identity.Opaque.{Opaque}
use vvagent.Identity.Alias
use vvagent.Identity.Alias.{Alias}
use vvagent.Identity.RuntimeKind
use vvagent.Identity.RuntimeKind.{RuntimeKind}

pub record QualifiedScope : Type 0 where
  pub kind : RuntimeKind
  pub instance_name : Text

pub record Selector : Type 0 where
  pub endpoint : Option Opaque
  pub scope : Option QualifiedScope
  pub alias : Option Alias
  pub address : Option Address

abbrev pub local_prefix : Text
local_prefix = codes "agent://local/"

-- The scope and the target of a value that is no endpoint id.
unfoldable pub parse_scope : Text → Result (Option QualifiedScope × Text)
parse_scope value = elim (split_once b':' value) [
  | none ↦ ok (none, value)
  | some (runtime, rest) ↦ RuntimeKind.parse runtime >>= λ kind.
      ok_or (split_once b'/' rest)
        (invalid (codes "a qualified selector is `<runtime>:<instance>/<alias-or-address>`"))
      >>= λ parts.
          if is_empty parts.0
          then err (invalid (codes "a qualified selector needs an instance name"))
          else ok (some (record { kind = kind; instance_name = parts.0 }), parts.1)
]

-- Both readings of the target are kept.
unfoldable pub parse_target : Option QualifiedScope → Text → Result Selector
parse_target scope target =
    let alias = ok_value (Alias.parse target) in
    let address = ok_value (Defs.parse target) in
    if is_none alias && is_none address
    then err
        (invalid (codes "`" ++ (target ++ codes "` is neither a valid alias nor a valid address")))
    else ok (record { endpoint = none; scope = scope; alias = alias; address = address })

unfoldable pub parse : Text → Result Selector
unfolding parse_scope parse_target
parse text =
    let value = unwrap_or (strip_prefix local_prefix text) text in
    elim (Opaque.parse value) [
      | ok id ↦ ok (record { endpoint = some id; scope = none; alias = none; address = none })
      | err e ↦ parse_scope value >>= λ parts. parse_target parts.0 parts.1
    ]
