-- ===== src/Store/Bound.antt =====
-- What a successful `bind` leaves in the store.
use vvagent.Base.{
  is_some-none, ℕ, ◌≡◌, refl, ap, subst, ◌∙◌, inl, inr, true, false, List, [], ◌∷◌, ◌++◌, Option,
  none, some, Text, codes, find, is_some, option_eq, text_eq, text_eq_refl, leb, length, In,
  Option-cases, find-In, and-eq-true,
}
use vvagent.Error.{Result, ok}
use vvagent.Identity.Alias
use vvagent.Identity.Alias.{Alias}
use vvagent.Identity.Opaque.{Opaque, opaque_eq, opaque_eq→≡, opaque_eq_refl, hex}
use vvagent.Identity.RuntimeKind.{RuntimeKind, kind_eq}
use vvagent.Store.Tables.{Store, EndpointRow, audit, find_endpoint, is_endpoint}
use vvagent.Store.Rows.{find-update, find-some, find-append}
use vvagent.Store.Binding.{
  Binding, Bound, bind, bind_new, bind_again, existing_slot, token_hash_of, rebind, bound_row,
  max_endpoints, in_slot, lifecycle_audit,
}
use vvagent.Store.Branches.{Sat, on_if, on_option}
use vvagent.Store.Capacity.{Keyed}

-- What `bind` has done when it succeeds: the row of the endpoint, found by its id, is bound to the
-- new incarnation and holds the hash of the new token.
pub record IsBound (sha256 : List ℕ → List ℕ) (b : Binding) (incarnation : Opaque) (bound : Bound)
    (t : Store) : Type 0 where
  pub row : EndpointRow
  pub found : find_endpoint t bound.endpoint_id ≡ some row
  pub incarnation_is : row.incarnation_id ≡ some incarnation
  pub hash_is : row.token_hash ≡ some (token_hash_of sha256 bound.token)
  pub scope_is : row.runtime_instance_id ≡ b.locator.runtime_instance_id
  pub id_is : row.endpoint_id ≡ bound.endpoint_id
  pub slot_is :
      (alias : Alias)
      → b.alias ≡ some alias
      → find (in_slot (Alias.as_str alias) b.locator.runtime_instance_id) t.endpoints ≡ some row

Binds : (List ℕ → List ℕ) → Binding → Opaque → Result Bound × Store → Type 0
Binds sha256 b incarnation x =
    (bound : Bound) → x.0 ≡ ok bound → IsBound sha256 b incarnation bound x.1

-- A slot that is found is the one for this alias in this instance.
existing_slot_lem :
    (s : Store) (b : Binding) (e : EndpointRow)
    → existing_slot s b ≡ some e
    → In e s.endpoints
      × (e.runtime_instance_id ≡ b.locator.runtime_instance_id)
      × ((alias : Alias)
          → b.alias ≡ some alias
          → find (in_slot (Alias.as_str alias) b.locator.runtime_instance_id) s.endpoints ≡ some e)
unfolding existing_slot
existing_slot_lem s b e h = elim (Option-cases b.alias) [
  | inl unnamed ↦ cc (rw unnamed at h)
  | inr (alias, named) ↦
      let test = in_slot (Alias.as_str alias) b.locator.runtime_instance_id in
      let (i, q) = find-In test s.endpoints e (rw named at h) in
      let (same_alias, same_scope) =
        and-eq-true (option_eq text_eq e.alias (some (Alias.as_str alias)))
          (opaque_eq e.runtime_instance_id b.locator.runtime_instance_id) q in
      (
        i,
        opaque_eq→≡ e.runtime_instance_id b.locator.runtime_instance_id same_scope,
        λ other o. rw o at h,
      )
]

existing_slot-none :
    (s : Store) (b : Binding) (alias : Alias)
    → existing_slot s b ≡ none
    → b.alias ≡ some alias
    → find (in_slot (Alias.as_str alias) b.locator.runtime_instance_id) s.endpoints ≡ none
unfolding existing_slot
existing_slot-none s b alias h named = rw named at h

-- The row that an id finds is the row itself, where ids are unique.
find_endpoint_of :
    (s : Store) (e : EndpointRow)
    → Keyed s
    → In e s.endpoints
    → find (is_endpoint e.endpoint_id) s.endpoints ≡ some e
find_endpoint_of s e keyed i =
    let (x, q) =
      find-some (is_endpoint e.endpoint_id) e s.endpoints i (opaque_eq_refl e.endpoint_id) in
    let (j, same) = find-In (is_endpoint e.endpoint_id) s.endpoints x q in
    q ∙ ap some (keyed x e j i (opaque_eq→≡ x.endpoint_id e.endpoint_id same))

module _ (sha256 : List ℕ → List ℕ) (s : Store) (now : ℕ) (b : Binding) (incarnation : Opaque)
    (keyed : Keyed s) where
  bind_again-Binds :
      (token : Text) (e : EndpointRow)
      → existing_slot s b ≡ some e
      → Binds sha256 b incarnation (bind_again sha256 s now b token incarnation e)
  unfolding Binds bind_again find_endpoint
  bind_again-Binds token e h bound q =
      let (i, scope, slot) = existing_slot_lem s b e h in
      let f = rebind b incarnation (token_hash_of sha256 token) in
      let found =
        find-update (is_endpoint e.endpoint_id) (is_endpoint e.endpoint_id) f e s.endpoints
          (λ x. refl) (find_endpoint_of s e keyed i)
        ∙ rw (opaque_eq_refl e.endpoint_id) refl in
      subst
        (λ (x : Bound).
          IsBound sha256 b incarnation x (bind_again sha256 s now b token incarnation e).1)
        (the_bound q)
        (record {
          row = f e;
          found = found;
          incarnation_is = refl;
          hash_is = refl;
          scope_is = scope;
          id_is = refl;
          slot_is = λ alias named.
              find-update (in_slot (Alias.as_str alias) b.locator.runtime_instance_id)
                (is_endpoint e.endpoint_id) f e s.endpoints (λ x. refl) (slot alias named)
              ∙ rw (opaque_eq_refl e.endpoint_id) refl;
        })
    where
      the_bound :
          {bound : Bound}
          → ok (record {
            endpoint_id = e.endpoint_id;
            incarnation_id = incarnation;
            token = token;
            rebound = true;
          })
            ≡ ok bound
          → record {
            endpoint_id = e.endpoint_id;
            incarnation_id = incarnation;
            token = token;
            rebound = true;
          }
            ≡ bound
      the_bound q = cc

  bind_new-Binds :
      (token : Text) (fresh : Opaque)
      → existing_slot s b ≡ none
      → Sat (Binds sha256 b incarnation) (bind_new sha256 s now b token incarnation fresh)
  unfolding Binds bind_new find_endpoint
  bind_new-Binds token fresh h =
      on_if (leb max_endpoints (length s.endpoints)) (λ q. record { holds = λ bound r. cc })
        (λ q.
          on_if (is_some (find (is_endpoint fresh) s.endpoints))
            (λ q'. record { holds = λ bound r. cc })
            (λ q'. record {
              holds = λ bound r.
                  let row = bound_row now b fresh incarnation (token_hash_of sha256 token) in
                  subst
                    (λ (x : Bound). IsBound sha256 b incarnation x (
                      audit (record s { endpoints = s.endpoints ++ row ∷ [] })
                        (lifecycle_audit now fresh (codes "bind") (codes "ok"))))
                    (the_bound r)
                    (record {
                      row = row;
                      found =
                          find-append (is_endpoint fresh) s.endpoints row
                            (is_some-none (find (is_endpoint fresh) s.endpoints) q')
                            (opaque_eq_refl fresh);
                      incarnation_is = refl;
                      hash_is = refl;
                      scope_is = refl;
                      id_is = refl;
                      slot_is = λ alias named.
                          find-append (in_slot (Alias.as_str alias) b.locator.runtime_instance_id)
                            s.endpoints row (existing_slot-none s b alias h named)
                            (rw named (
                              rw (text_eq_refl (Alias.as_str alias))
                                (opaque_eq_refl b.locator.runtime_instance_id)));
                    });
            }))
    where
      the_bound :
          {bound : Bound}
          → ok (record {
            endpoint_id = fresh;
            incarnation_id = incarnation;
            token = token;
            rebound = false;
          })
            ≡ ok bound
          → record {
            endpoint_id = fresh;
            incarnation_id = incarnation;
            token = token;
            rebound = false;
          }
            ≡ bound
      the_bound q = cc

  bind-Sat :
      (token_bytes : Option (List ℕ)) (fresh : Opaque)
      → Sat (Binds sha256 b incarnation) (bind sha256 s now b token_bytes incarnation fresh)
  unfolding bind
  bind-Sat token_bytes fresh =
      on_if (kind_eq b.locator.kind RuntimeKind.peer)
        (λ q. record { holds = unfold Binds in λ bound r. cc })
        (λ q.
          on_option token_bytes _ _ (λ k. record { holds = unfold Binds in λ bound r. cc })
            (λ random k.
              on_option (existing_slot s b) _ _ (λ j. bind_new-Binds (hex random) fresh j)
                (λ e j. record { holds = bind_again-Binds (hex random) e j })))

  pub bind-IsBound :
      (token_bytes : Option (List ℕ)) (fresh : Opaque) (bound : Bound)
      → (bind sha256 s now b token_bytes incarnation fresh).0 ≡ ok bound
      → IsBound sha256 b incarnation bound (bind sha256 s now b token_bytes incarnation fresh).1
  bind-IsBound token_bytes fresh bound h =
      unfold Binds in (bind-Sat token_bytes fresh).holds bound h
