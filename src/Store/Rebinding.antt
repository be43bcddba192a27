-- ===== src/Store/Rebinding.antt =====
-- What binding an endpoint gives its new process, and takes from the old one.
use vvagent.Base.{
  ℕ, ◌≡◌, ◌≢◌, refl, sym, ◌∙◌, inl, inr, true, false, List, Option, some, Text, codes, bytes,
  Bool-cases,
}
use vvagent.Base.Bits.{constant_time_eq, constant_time_eq_iff}
use vvagent.Error.{Result, ok, err, MeshError, new, not_authorized, claim_lost}
use vvagent.Identity.Alias.{Alias}
use vvagent.Identity.Opaque.{Opaque, opaque_eq_refl, ne→opaque_eq}
use vvagent.Identity.RuntimeKind.{RuntimeKind, kind_eq}
use vvagent.Message.PrincipalKind
use vvagent.Store.Tables.{Store, EndpointRow, Caller}
use vvagent.Store.Queries.{require_current_incarnation, live_binding}
use vvagent.Store.Binding.{
  Binding, Bound, bind, bind_again, authenticate, existing_slot, token_hash_of,
}
use vvagent.Store.Branches.{Sat, on_if, on_option}
use vvagent.Store.Capacity.{Keyed}
use vvagent.Store.Bound.{bind-IsBound}

-- The caller that the token of a bound endpoint authenticates.
abbrev pub agent_caller : Opaque → Opaque → Opaque → Caller
agent_caller id incarnation scope = record {
  principal = record {
    kind = PrincipalKind.agent;
    endpoint_id = some id;
    incarnation_id = some incarnation;
  };
  scope = some scope;
}

module _ (sha256 : List ℕ → List ℕ) (s : Store) (now : ℕ) (b : Binding)
    (token_bytes : Option (List ℕ)) (incarnation fresh : Opaque) (bound : Bound) where
  -- The token that a successful `bind` returns authenticates as the endpoint, its new incarnation and
  -- its runtime instance, and a token with another hash is refused, where endpoint ids are unique.
  pub authenticate-bind :
      (token : Text)
      → Keyed s
      → (bind sha256 s now b token_bytes incarnation fresh).0 ≡ ok bound
      → let t = (bind sha256 s now b token_bytes incarnation fresh).1 in
        (authenticate sha256 t bound.endpoint_id bound.token
          ≡ ok (agent_caller bound.endpoint_id incarnation b.locator.runtime_instance_id))
        × (bytes (token_hash_of sha256 bound.token) ≢ bytes (token_hash_of sha256 token)
            → authenticate sha256 t bound.endpoint_id token
              ≡ err (new not_authorized (codes "endpoint token does not match")))
  unfolding authenticate
  authenticate-bind token keyed h =
      let is = bind-IsBound sha256 s now b incarnation keyed token_bytes fresh bound h in
      let stored = token_hash_of sha256 bound.token in
      (
        rw (is.found, authenticate)
            (rw (is.hash_is, authenticate)
              (rw ((constant_time_eq_iff (bytes stored) (bytes stored)).1 refl)
                (rw (is.incarnation_is, is.scope_is) refl))),
        λ other.
            rw (is.found, authenticate)
              (rw (is.hash_is, authenticate)
                (rw (unequal (bytes stored) (bytes (token_hash_of sha256 token)) other) refl)),
      )
    where
      unequal : (x y : List ℕ) → x ≢ y → constant_time_eq x y ≡ false
      unequal x y h = elim (Bool-cases (constant_time_eq x y)) [
        | inl e ↦ absurd (h ((constant_time_eq_iff x y).0 e))
        | inr e ↦ e
      ]

  -- After a successful `bind` any other incarnation of that endpoint is refused as superseded, and
  -- the new one is not, where endpoint ids are unique.
  pub bind-supersedes :
      (old : Opaque)
      → Keyed s
      → old ≢ incarnation
      → (bind sha256 s now b token_bytes incarnation fresh).0 ≡ ok bound
      → let t = (bind sha256 s now b token_bytes incarnation fresh).1 in
        (require_current_incarnation t bound.endpoint_id incarnation ≡ ok tt)
        × ((e : MeshError) × (require_current_incarnation t bound.endpoint_id old ≡ err e)
            × (e.code ≡ claim_lost))
  unfolding require_current_incarnation
  bind-supersedes old keyed other h =
      let t = (bind sha256 s now b token_bytes incarnation fresh).1 in
      let is = bind-IsBound sha256 s now b incarnation keyed token_bytes fresh bound h in
      let live : live_binding t bound.endpoint_id ≡ some incarnation =
        rw (is.found, live_binding) is.incarnation_is in
      (
        rw (live, require_current_incarnation) (rw (opaque_eq_refl incarnation) refl),
        (
          new claim_lost
              (codes "this endpoint has been rebound; a superseded incarnation cannot act for it"),
          rw (live, require_current_incarnation)
              (rw (ne→opaque_eq incarnation old (λ q. other (sym q))) refl),
          refl,
        ),
      )

-- What `bind` returns where the slot is known.
bind-known :
    (sha256 : List ℕ → List ℕ) (s : Store) (now : ℕ) (b : Binding) (token_bytes : Option (List ℕ))
    (incarnation fresh : Opaque) (e : EndpointRow)
    → existing_slot s b ≡ some e
    → Sat {B = Result Bound}
        (λ x.
          (bound : Bound)
          → x.0 ≡ ok bound
          → (bound.endpoint_id ≡ e.endpoint_id) × (bound.rebound ≡ true))
        (bind sha256 s now b token_bytes incarnation fresh)
unfolding bind
bind-known sha256 s now b token_bytes incarnation fresh e h =
    on_if (kind_eq b.locator.kind RuntimeKind.peer) (λ q. record { holds = λ bound r. cc })
      (λ q.
        on_option token_bytes _ _ (λ k. record { holds = λ bound r. cc })
          (λ random k. rw h (record { holds = unfold bind_again in λ bound r. (cc, cc) })))

-- An alias in a runtime instance keeps its endpoint: bound again, whatever the rest of the binding, it
-- has the same endpoint id, where endpoint ids are unique.
pub bind-bind :
    (sha256 : List ℕ → List ℕ) (s : Store) (now : ℕ) (b b' : Binding) (alias : Alias)
    (token_bytes : Option (List ℕ)) (incarnation fresh : Opaque) (bound bound' : Bound) (later : ℕ)
    (token_bytes' : Option (List ℕ)) (incarnation' fresh' : Opaque)
    → Keyed s
    → b.alias ≡ some alias
    → b'.alias ≡ some alias
    → b'.locator.runtime_instance_id ≡ b.locator.runtime_instance_id
    → (bind sha256 s now b token_bytes incarnation fresh).0 ≡ ok bound
    → (bind sha256
        (bind sha256 s now b token_bytes incarnation fresh).1
        later
        b'
        token_bytes'
        incarnation'
        fresh').0
      ≡ ok bound'
    → (bound'.endpoint_id ≡ bound.endpoint_id) × (bound'.rebound ≡ true)
unfolding existing_slot
bind-bind sha256 s now b b' alias token_bytes incarnation fresh bound bound' later token_bytes'
      incarnation' fresh' keyed named named' scope h h' =
    let t = (bind sha256 s now b token_bytes incarnation fresh).1 in
    let is = bind-IsBound sha256 s now b incarnation keyed token_bytes fresh bound h in
    let again : existing_slot t b' ≡ some is.row = rw (named', scope) (is.slot_is alias named) in
    let (same, rebound) =
      (bind-known sha256 t later b' token_bytes' incarnation' fresh' is.row again).holds bound'
        h' in
    (same ∙ is.id_is, rebound)
