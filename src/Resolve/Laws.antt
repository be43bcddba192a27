-- ===== src/Resolve/Laws.antt =====
-- What `resolve` promises: the endpoint it returns matches the selector, and no other match was
-- passed over without one of the reasons that the plan gives.
use vvagent.Base.{
  ◌≡◌, refl, ap, ◌⊎◌, inl, inr, ◌↔◌, true, Option, none, some, arith, Text, is_some_and, option_eq,
  text_eq, text_eq→≡, text_eq_refl, and-eq-true, or-eq-true,
}
use vvagent.Address.Defs.{Address, satisfies}
use vvagent.Identity.Alias.{Alias, alias_eq, alias_eq→≡, alias_eq_refl}
use vvagent.Identity.RuntimeKind.{kind_eq, kind_eq→≡, kind_eq_refl}
use vvagent.Selector.Defs.{Selector, QualifiedScope}
use vvagent.Endpoint.{Endpoint}
use vvagent.Resolve.Defs.{candidate, scope_admits, by_alias, by_address}

-- The selector names no scope, or the runtime and instance that the endpoint lives in.
abbrev pub InScope : Option QualifiedScope → Endpoint → Type 0
InScope none e = Unit {0}
InScope (some s) e = (e.locator.kind ≡ s.kind) × (e.locator.instance_name ≡ some s.instance_name)

abbrev pub ByAlias : Selector → Endpoint → Type 0
ByAlias s e = (a : Alias) × (s.alias ≡ some a) × (e.alias ≡ some a)

abbrev pub ByAddress : Selector → Endpoint → Type 0
ByAddress s e =
    (p : Address) × (a : Address) × (s.address ≡ some p)
    × (e.locator.address ≡ some a)
    × (satisfies a p ≡ true)

-- An endpoint that a selector without an id can mean: in its scope, by either reading.
abbrev pub Matches : Selector → Endpoint → Type 0
Matches s e = InScope s.scope e × (ByAlias s e ⊎ ByAddress s e)

text_option_iff :
    (o : Option Text) (t : Text) → (option_eq text_eq o (some t) ≡ true) ↔ (o ≡ some t)
text_option_iff none t = ((λ h. cc), (λ h. cc))
text_option_iff (some u) t =
    ((λ h. ap some (text_eq→≡ u t h)), (λ h. ground (arith, text_eq_refl t)))

alias_option_iff :
    (o : Option Alias) (t : Alias) → (option_eq alias_eq o (some t) ≡ true) ↔ (o ≡ some t)
alias_option_iff none t = ((λ h. cc), (λ h. cc))
alias_option_iff (some u) t =
    ((λ h. ap some (alias_eq→≡ u t h)), (λ h. ground (arith, alias_eq_refl t)))

scope_iff : (s : Option QualifiedScope) (e : Endpoint) → (scope_admits s e ≡ true) ↔ InScope s e
unfolding scope_admits
scope_iff none e = ((λ h. tt), (λ h. refl))
scope_iff (some s) e = (
  λ h.
      let (k, n) = and-eq-true (kind_eq e.locator.kind s.kind) _ h in
      (
        kind_eq→≡ e.locator.kind s.kind k,
        (text_option_iff e.locator.instance_name s.instance_name).0 n,
      ),
  λ h.
      ground (
        arith,
        kind_eq_refl s.kind,
        (text_option_iff e.locator.instance_name s.instance_name).1 h.1,
      ),
)

alias_iff : (s : Selector) (e : Endpoint) → (by_alias s.alias e ≡ true) ↔ ByAlias s e
unfolding by_alias
alias_iff s e =
    (λ h. forth s.alias refl h, λ h. rw (h.1, by_alias) ((alias_option_iff e.alias h.0).1 h.2))
  where
    forth :
        (o : Option Alias)
        → s.alias ≡ o
        → is_some_and o (λ a. option_eq alias_eq e.alias (some a)) ≡ true
        → ByAlias s e
    forth none q h = cc
    forth (some a) q h = (a, q, (alias_option_iff e.alias a).0 h)

address_iff : (s : Selector) (e : Endpoint) → (by_address s.address e ≡ true) ↔ ByAddress s e
unfolding by_address
address_iff s e = (λ h. forth s.address e.locator.address refl refl h, λ h. ground arith)
  where
    forth :
        (o q : Option Address)
        → s.address ≡ o
        → e.locator.address ≡ q
        → by_address o e ≡ true
        → ByAddress s e
    forth none q i j h = cc
    forth (some p) none i j h = ground arith
    forth (some p) (some a) i j h = (p, a, i, j, ground arith)

pub candidate_iff : (s : Selector) (e : Endpoint) → (candidate s e ≡ true) ↔ Matches s e
unfolding candidate
candidate_iff s e = (
  λ h.
      let (k, r) = and-eq-true (scope_admits s.scope e) _ h in
      (
        (scope_iff s.scope e).0 k,
        elim (or-eq-true (by_alias s.alias e) _ r) [
          | inl a ↦ inl ((alias_iff s e).0 a)
          | inr a ↦ inr ((address_iff s e).0 a)
        ],
      ),
  λ h. elim h.1 [
    | inl a ↦ ground (arith, (scope_iff s.scope e).1 h.0, (alias_iff s e).1 a)
    | inr a ↦ ground (arith, (scope_iff s.scope e).1 h.0, (address_iff s e).1 a)
  ],
)
