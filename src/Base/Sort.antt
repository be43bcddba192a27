-- ===== src/Base/Sort.antt =====
-- `ORDER BY`: an insertion sort by a test, and the order of texts by code points.
use Prim.Native.Nat.{ℕ}
use mathlib.Core.Path.{subst}
use mathlib.Core.Logic.{inl, inr}
use mathlib.Core.Bool.{Bool, true, false}
use mathlib.Core.List.{List, [], ◌∷◌}
use mathlib.Core.Option.{Option, none, some}
use vvagent.Base.Tests.{ltb, ◌==◌, if◌then◌else◌, Bool-cases}
use vvagent.Base.Lists.{In, here, there, In-cons}

-- SQLite's BINARY collation of texts; code points are ordered as their UTF-8 bytes are.
unfoldable pub text_leb : List ℕ → List ℕ → Bool
text_leb [] t = true
text_leb (c ∷ s) [] = false
text_leb (c ∷ s) (d ∷ t) =
    let rest = text_leb s t in if ltb c d then true else if c == d then rest else false

-- NULL comes first.
abbrev pub null_first : Option (List ℕ) → Option (List ℕ) → Bool
null_first none t = true
null_first (some s) none = false
null_first (some s) (some t) = text_leb s t

module _ {ℓ} {A : Type ℓ} (le : A → A → Bool) where
  unfoldable pub insert_by : A → List A → List A
  insert_by x [] = x ∷ []
  insert_by x (y ∷ ys) = let rest = insert_by x ys in if le x y then x ∷ y ∷ ys else y ∷ rest

  unfoldable pub sort_by : List A → List A
  unfolding insert_by
  sort_by [] = []
  sort_by (x ∷ xs) = insert_by x (sort_by xs)

  insert_by-In : (a x : A) (ys : List A) → In a (x ∷ ys) → In a (insert_by x ys)
  unfolding insert_by
  insert_by-In a x [] m = m
  insert_by-In a x (y ∷ ys) m = elim (Bool-cases (le x y)) [
    | inl e ↦ rw e m
    | inr e ↦ rw e (elim (In-cons m) [
      | inl q ↦ there (insert_by-In a x ys (subst (λ z. In a (z ∷ ys)) q here))
      | inr m' ↦ elim (In-cons m') [
        | inl q ↦ subst (λ z. In a (z ∷ insert_by x ys)) q here
        | inr m'' ↦ there (insert_by-In a x ys (there m''))
      ]
    ])
  ]

  In-insert_by : (a x : A) (ys : List A) → In a (insert_by x ys) → In a (x ∷ ys)
  unfolding insert_by
  In-insert_by a x [] m = m
  In-insert_by a x (y ∷ ys) m = elim (Bool-cases (le x y)) [
    | inl e ↦ rw e at m
    | inr e ↦ elim (In-cons (rw e at m)) [
      | inl q ↦ there (subst (λ z. In a (z ∷ ys)) q here)
      | inr m' ↦ elim (In-cons (In-insert_by a x ys m')) [
        | inl q ↦ subst (λ z. In a (z ∷ y ∷ ys)) q here
        | inr m'' ↦ there (there m'')
      ]
    ]
  ]

  -- Sorting keeps the items, and adds none.
  pub sort_by-In : (a : A) (xs : List A) → In a xs → In a (sort_by xs)
  unfolding sort_by
  sort_by-In a [] m = m
  sort_by-In a (x ∷ xs) m = insert_by-In a x (sort_by xs) (elim (In-cons m) [
    | inl q ↦ subst (λ z. In a (z ∷ sort_by xs)) q here
    | inr m' ↦ there (sort_by-In a xs m')
  ])

  pub In-sort_by : (a : A) (xs : List A) → In a (sort_by xs) → In a xs
  unfolding sort_by
  In-sort_by a [] m = m
  In-sort_by a (x ∷ xs) m = elim (In-cons (In-insert_by a x (sort_by xs) m)) [
    | inl q ↦ subst (λ z. In a (z ∷ xs)) q here
    | inr m' ↦ there (In-sort_by a xs m')
  ]
