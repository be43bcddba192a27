-- ===== src/Base/Lists.antt =====
-- Lists measured by native numbers, Boolean quantifiers and filters, and predicates on every item.
use Prim.Native.Nat.{ℕ, zero, suc, ◌+◌, ◌≤◌, min}
use mathlib.Core.Path.{◌≡◌, refl, sym, ap, subst, ◌∙◌}
use mathlib.Core.Logic.{◌⊎◌, inl, inr, ◌↔◌}
use mathlib.Core.Bool.{Bool, true, false, ◌&&◌, ◌||◌}
use mathlib.Core.Option.{Option, none, some}
use mathlib.Core.List.{List, [], ◌∷◌, ◌++◌}
use native.Mathlib.Omega.{arith}
use vvagent.Base.Tests.{if◌then◌else◌, Bool-cases, and-eq-true, or-eq-false_left, or-eq-false_right}

module _ {ℓ} {A : Type ℓ} where
  abbrev pub length : List A → ℕ
  length [] = 0
  length (x ∷ xs) = suc (length xs)

  abbrev pub take : ℕ → List A → List A
  take zero xs = []
  take (suc n) [] = []
  take (suc n) (x ∷ xs) = x ∷ take n xs

  abbrev pub drop : ℕ → List A → List A
  drop zero xs = xs
  drop (suc n) [] = []
  drop (suc n) (x ∷ xs) = drop n xs

  abbrev pub is_empty : List A → Bool
  is_empty [] = true
  is_empty (x ∷ xs) = false

  abbrev pub head? : List A → Option A
  head? [] = none
  head? (x ∷ xs) = some x

  abbrev pub all : (A → Bool) → List A → Bool
  all p [] = true
  all p (x ∷ xs) = p x && all p xs

  abbrev pub any : (A → Bool) → List A → Bool
  any p [] = false
  any p (x ∷ xs) = p x || any p xs

  abbrev pub find : (A → Bool) → List A → Option A
  find p [] = none
  find p (x ∷ xs) = if p x then some x else find p xs

  -- `iter().filter(p)` and `retain(p)`
  abbrev pub keep : (A → Bool) → List A → List A
  keep p [] = []
  keep p (x ∷ xs) = if p x then x ∷ keep p xs else keep p xs

  pub length-append : (xs ys : List A) → length (xs ++ ys) ≡ length xs + length ys
  length-append [] ys = omega arith
  length-append (x ∷ xs) ys = omega (arith, length-append xs ys)

  pub length-take : (n : ℕ) (xs : List A) → length (take n xs) ≡ min n (length xs)
  length-take zero xs = omega arith
  length-take (suc n) [] = omega arith
  length-take (suc n) (x ∷ xs) = omega (arith, length-take n xs)

  pub take-append : (xs ys : List A) → take (length xs) (xs ++ ys) ≡ xs
  take-append [] ys = refl
  take-append (x ∷ xs) ys = ap (◌∷◌ x) (take-append xs ys)

  pub drop-append : (xs ys : List A) → drop (length xs) (xs ++ ys) ≡ ys
  drop-append [] ys = refl
  drop-append (x ∷ xs) ys = drop-append xs ys

  pub length-keep-le : (p : A → Bool) (xs : List A) → length (keep p xs) ≤ length xs
  length-keep-le p [] = omega arith
  length-keep-le p (x ∷ xs) = ground (arith, length-keep-le p xs)

  -- Membership as data: which place the item stands at.
  pub data In (a : A) : List A → Type ℓ where
    here : {xs : List A} → In a (a ∷ xs)
    there : {x : A} {xs : List A} → In a xs → In a (x ∷ xs)

  pub all-append :
      (p : A → Bool) (xs ys : List A) → all p xs ≡ true → all p ys ≡ true → all p (xs ++ ys) ≡ true
  all-append p [] ys h k = k
  all-append p (x ∷ xs) ys h k = ground (arith, all-append p xs ys)

  pub all-split :
      (p : A → Bool) (xs ys : List A)
      → all p (xs ++ ys) ≡ true
      → (all p xs ≡ true) × (all p ys ≡ true)
  all-split p [] ys h = (refl, h)
  all-split p (x ∷ xs) ys h = ground (arith, all-split p xs ys)

  pub In-cons : {a x : A} {xs : List A} → In a (x ∷ xs) → (a ≡ x) ⊎ In a xs
  In-cons here = inl refl
  In-cons (there m) = inr m

  pub In-nil : {a : A} → ¬ In a []
  In-nil m = elim m [ ]

  pub In-keep : (p : A → Bool) (a : A) (xs : List A) → In a (keep p xs) → In a xs × (p a ≡ true)
  In-keep p a [] m = elim m [ ]
  In-keep p a (x ∷ xs) m = elim (Bool-cases (p x)) [
    | inl e ↦ elim (In-cons (rw e at m)) [
      | inl q ↦ (subst (λ y. In y (x ∷ xs)) (sym q) here, ap p q ∙ e)
      | inr m' ↦ let (i, h) = In-keep p a xs m' in (there i, h)
    ]
    | inr e ↦ let (i, h) = In-keep p a xs (rw e at m) in (there i, h)
  ]

  pub In-keep_of : (p : A → Bool) (a : A) (xs : List A) → In a xs → p a ≡ true → In a (keep p xs)
  In-keep_of p a [] m h = elim m [ ]
  In-keep_of p a (x ∷ xs) m h = elim (Bool-cases (p x)) [
    | inl e ↦ elim (In-cons m) [
      | inl q ↦ rw e (subst (λ y. In y (x ∷ keep p xs)) (sym q) here)
      | inr m' ↦ rw e (there (In-keep_of p a xs m' h))
    ]
    | inr e ↦ elim (In-cons m) [ inl q ↦ cc (ap p q) | inr m' ↦ rw e (In-keep_of p a xs m' h) ]
  ]

  pub all-In : (p : A → Bool) (xs : List A) → all p xs ≡ true → (a : A) → In a xs → p a ≡ true
  all-In p [] h a m = elim m [ ]
  all-In p (x ∷ xs) h a m =
      let (hx, hs) = and-eq-true (p x) (all p xs) h in
      elim (In-cons m) [ inl q ↦ ap p q ∙ hx | inr m' ↦ all-In p xs hs a m' ]

  pub all-of_In : (p : A → Bool) (xs : List A) → ((a : A) → In a xs → p a ≡ true) → all p xs ≡ true
  all-of_In p [] h = refl
  all-of_In p (x ∷ xs) h = rw (h x here, all-of_In p xs (λ a m. h a (there m)))

  pub In-append_left : {a : A} {xs : List A} (ys : List A) → In a xs → In a (xs ++ ys)
  In-append_left ys here = here
  In-append_left ys (there m) = there (In-append_left ys m)

  pub In-append_right : {a : A} (xs : List A) {ys : List A} → In a ys → In a (xs ++ ys)
  In-append_right [] m = m
  In-append_right (x ∷ xs) m = there (In-append_right xs m)

  pub In-append : {a : A} (xs : List A) {ys : List A} → In a (xs ++ ys) → In a xs ⊎ In a ys
  In-append [] m = inr m
  In-append (x ∷ xs) here = inl here
  In-append (x ∷ xs) (there m) = elim (In-append xs m) [ inl l ↦ inl (there l) | inr r ↦ inr r ]

  pub find-In : (p : A → Bool) (xs : List A) (a : A) → find p xs ≡ some a → In a xs × (p a ≡ true)
  find-In p [] a h = cc
  find-In p (x ∷ xs) a h = elim (Bool-cases (p x)) [
    | inl e ↦
        let q : x ≡ a = cc (rw e at h) in (subst (λ y. In y (x ∷ xs)) q here, sym (ap p q) ∙ e)
    | inr e ↦ let (i, k) = find-In p xs a (rw e at h) in (there i, k)
  ]

  pub find-none : (p : A → Bool) (xs : List A) → find p xs ≡ none → (a : A) → In a xs → p a ≡ false
  find-none p [] h a m = elim m [ ]
  find-none p (x ∷ xs) h a m = elim (Bool-cases (p x)) [
    | inl e ↦ cc (rw e at h)
    | inr e ↦ elim (In-cons m) [ inl q ↦ ap p q ∙ e | inr m' ↦ find-none p xs (rw e at h) a m' ]
  ]

  pub any-false_iff :
      (p : A → Bool) (xs : List A) → (any p xs ≡ false) ↔ ((a : A) → In a xs → p a ≡ false)
  any-false_iff p [] = ((λ h a m. elim m [ ]), (λ h. refl))
  any-false_iff p (x ∷ xs) = (
    λ h a m. elim (In-cons m) [
      | inl q ↦ ap p q ∙ or-eq-false_left (p x) (any p xs) h
      | inr m' ↦ (any-false_iff p xs).0 (or-eq-false_right (p x) (any p xs) h) a m'
    ],
    λ h. rw (h x here) ((any-false_iff p xs).1 (λ a m. h a (there m))),
  )
