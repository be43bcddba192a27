-- ===== src/Policy/Admission.antt =====
-- Who a gate admits, stated without the order of the tests in `Policy::evaluate`.
use vvagent.Base.{
  ℕ, ◌≡◌, refl, ap, subst, ◌∙◌, ◌⊎◌, inl, inr, ◌↔◌, true, ◌&&◌, List, [], ◌∷◌, Option, none, some,
  arith, any, is_some, is_some_and, option_eq, ◌==◌, In, here, there, In-cons, or-eq-true,
}
use vvagent.Address.Defs.{Address, get, space}
use vvagent.Identity.Opaque.{Opaque, opaque_eq, opaque_eq→≡, opaque_eq_refl}
use vvagent.Policy.TeamScope.{TeamScope}
use vvagent.Policy.Defs.{Policy, Request, names_trusted, same_scope, same_space, teammates}

-- The policy lists the sender's endpoint.
abbrev pub Trusted : Policy → Request → Type 0
Trusted p r = (id : Opaque) × (r.sender.endpoint_id ≡ some id) × In id p.trusted

abbrev pub SameScope : Request → Type 0
SameScope r = r.sender_scope ≡ some r.target_scope

abbrev pub SameSpace : Address → Address → Type 0
SameSpace theirs ours = (n : ℕ) × (get theirs space ≡ some n) × (get ours space ≡ some n)

any_iff : (id : Opaque) (ids : List Opaque) → (any (λ t. opaque_eq t id) ids ≡ true) ↔ In id ids
any_iff id [] = ((λ h. cc), (λ m. elim m [ ]))
any_iff id (t ∷ ids) = (
  λ h. elim (or-eq-true (opaque_eq t id) (any (λ t. opaque_eq t id) ids) h) [
    | inl e ↦ subst (λ y. In y (t ∷ ids)) (opaque_eq→≡ t id e) here
    | inr e ↦ there ((any_iff id ids).0 e)
  ],
  λ m. elim (In-cons m) [
    | inl e ↦ rw e (ground (arith, opaque_eq_refl t))
    | inr m' ↦ ground (arith, (any_iff id ids).1 m')
  ],
)

pub Trusted-iff : (p : Policy) (r : Request) → (names_trusted p r ≡ true) ↔ Trusted p r
unfolding names_trusted
Trusted-iff p r =
    (λ h. forth r.sender.endpoint_id refl h, λ h. ground (arith, (any_iff h.0 p.trusted).1 h.2))
  where
    forth :
        (o : Option Opaque)
        → r.sender.endpoint_id ≡ o
        → is_some_and o (λ id. any (λ t. opaque_eq t id) p.trusted) ≡ true
        → Trusted p r
    forth none q h = cc
    forth (some id) q h = (id, q, (any_iff id p.trusted).0 h)

pub same_scope_iff : (r : Request) → (same_scope r ≡ true) ↔ SameScope r
unfolding same_scope
same_scope_iff r =
    (λ h. forth r.sender_scope refl h, λ h. ground (arith, opaque_eq_refl r.target_scope))
  where
    forth :
        (o : Option Opaque)
        → r.sender_scope ≡ o
        → option_eq opaque_eq o (some r.target_scope) ≡ true
        → SameScope r
    forth none q h = cc
    forth (some s) q h = q ∙ ap some (opaque_eq→≡ s r.target_scope h)

same_space_iff : (theirs ours : Address) → (same_space theirs ours ≡ true) ↔ SameSpace theirs ours
unfolding same_space
same_space_iff theirs ours = (λ h. forth (get theirs space) (get ours space) h, λ h. ground arith)
  where
    forth :
        (x y : Option ℕ)
        → (is_some y && option_eq ◌==◌ x y) ≡ true
        → (n : ℕ) × (x ≡ some n) × (y ≡ some n)
    forth none none h = cc
    forth none (some n) h = cc
    forth (some m) none h = cc
    forth (some m) (some n) h = (n, ground arith, refl)

-- Who counts as a teammate: nobody, the same runtime instance, or the same space where both
-- addresses are known and the same runtime instance where one is not.
abbrev pub Team : Policy → Request → Type 0
Team p r =
    ((p.team ≡ TeamScope.runtime_instance) × SameScope r)
    ⊎ ((p.team ≡ TeamScope.space)
        × ((r.sender_address ≡ none) ⊎ (r.target_address ≡ none))
        × SameScope r)
    ⊎ ((p.team ≡ TeamScope.space)
        × ((theirs : Address) × (ours : Address) × (r.sender_address ≡ some theirs)
            × (r.target_address ≡ some ours)
            × SameSpace theirs ours))

pub team_iff : (p : Policy) (r : Request) → (teammates p.team r ≡ true) ↔ Team p r
unfolding teammates
team_iff p r = (λ h. forth p.team refl r.sender_address refl r.target_address refl h, back)
  where
    forth :
        (t : TeamScope)
        → p.team ≡ t
        → (x : Option Address) → r.sender_address ≡ x
        → (y : Option Address) → r.target_address ≡ y
        → teammates t r ≡ true
        → Team p r
    forth TeamScope.off q x i y j h = cc
    forth TeamScope.runtime_instance q x i y j h = inl (q, (same_scope_iff r).0 h)
    forth TeamScope.space q none i y j h = inr (inl (q, inl i, (same_scope_iff r).0 (ground arith)))
    forth TeamScope.space q (some a) i none j h =
        inr (inl (q, inr j, (same_scope_iff r).0 (ground arith)))
    forth TeamScope.space q (some a) i (some b) j h =
        inr (inr (q, (a, b, i, j, (same_space_iff a b).0 (ground arith))))

    back : Team p r → teammates p.team r ≡ true
    back (inl (q, h)) = ground (arith, (same_scope_iff r).1 h)
    back (inr (inl (q, inl i, h))) = ground (arith, (same_scope_iff r).1 h)
    back (inr (inl (q, inr i, h))) = ground (arith, (same_scope_iff r).1 h)
    back (inr (inr (q, (a, b, i, j, h)))) = ground (arith, (same_space_iff a b).1 h)
