-- ===== src/Store/Rows.antt =====
-- What the store's SQL statements do to a table, as functions of its rows.
use vvagent.Base.{
  ℕ, suc, ◌+◌, ◌≡◌, refl, sym, ap, subst, ◌∙◌, inl, inr, Bool, true, false, List, [], ◌∷◌, ◌++◌,
  none, some, arith, if◌then◌else◌, length, keep, any, find, In, here, there, In-cons, Bool-cases,
}

module _ {ℓ} {A : Type ℓ} where
  -- `UPDATE table SET f WHERE p`
  abbrev pub update : (A → Bool) → (A → A) → List A → List A
  update p f [] = []
  update p f (x ∷ xs) = (if p x then f x else x) ∷ update p f xs

  -- How many rows such an update changed.
  abbrev pub changed : (A → Bool) → List A → ℕ
  changed p xs = length (keep p xs)

  -- `sum(f) WHERE p`
  abbrev pub total : (A → Bool) → (A → ℕ) → List A → ℕ
  total p f [] = 0
  total p f (x ∷ xs) = if p x then f x + total p f xs else total p f xs

  pub In-update :
      (p : A → Bool) (f : A → A) (a : A) (xs : List A)
      → In a (update p f xs)
      → (x : A) × In x xs × (a ≡ (if p x then f x else x))
  In-update p f a [] m = elim m [ ]
  In-update p f a (x ∷ xs) m = elim (In-cons m) [
    | inl q ↦ (x, here, q)
    | inr m' ↦ let (y, i, q) = In-update p f a xs m' in (y, there i, q)
  ]

  -- An update that leaves a test and a measure of each row as they are leaves the count and the sum.
  pub keep-update :
      (p q : A → Bool) (f : A → A) (xs : List A)
      → ((x : A) → In x xs → p x ≡ true → q (f x) ≡ q x)
      → length (keep q (update p f xs)) ≡ length (keep q xs)
  keep-update p q f [] h = refl
  keep-update p q f (x ∷ xs) h =
      let rest = keep-update p q f xs (λ y m. h y (there m)) in
      elim (Bool-cases (p x)) [
        | inl e ↦ let same = h x here e in ground arith
        | inr e ↦ ground arith
      ]

  pub total-update :
      (p q : A → Bool) (f : A → A) (g : A → ℕ) (xs : List A)
      → ((x : A) → In x xs → p x ≡ true → (q (f x) ≡ q x) × (g (f x) ≡ g x))
      → total q g (update p f xs) ≡ total q g xs
  total-update p q f g [] h = refl
  total-update p q f g (x ∷ xs) h =
      let rest = total-update p q f g xs (λ y m. h y (there m)) in
      elim (Bool-cases (p x)) [
        | inl e ↦ let same = h x here e in ground arith
        | inr e ↦ ground arith
      ]

  pub keep-append :
      (q : A → Bool) (xs : List A) (x : A)
      → length (keep q (xs ++ x ∷ []))
        ≡ (if q x then suc (length (keep q xs)) else length (keep q xs))
  keep-append q [] x = ground arith
  keep-append q (y ∷ ys) x = ground (arith, keep-append q ys x)

  pub total-append :
      (q : A → Bool) (g : A → ℕ) (xs : List A) (x : A)
      → total q g (xs ++ x ∷ []) ≡ (if q x then total q g xs + g x else total q g xs)
  total-append q g [] x = ground arith
  total-append q g (y ∷ ys) x = ground (arith, total-append q g ys x)

  pub In-update_of :
      (p : A → Bool) (f : A → A) (x : A) (xs : List A)
      → In x xs
      → In (if p x then f x else x) (update p f xs)
  In-update_of p f x [] m = elim m [ ]
  In-update_of p f x (y ∷ xs) m = elim (In-cons m) [
    | inl q ↦ subst (λ (z : A). In (if p z then f z else z) (update p f (y ∷ xs))) (sym q) here
    | inr m' ↦ there (In-update_of p f x xs m')
  ]

  pub changed-none :
      (p : A → Bool) (xs : List A) → changed p xs ≡ 0 → (x : A) → In x xs → p x ≡ false
  changed-none p [] h x m = elim m [ ]
  changed-none p (y ∷ xs) h x m = elim (Bool-cases (p y)) [
    | inl e ↦ absurd (ground arith)
    | inr e ↦ elim (In-cons m) [
      | inl q ↦ ap p q ∙ e
      | inr m' ↦ changed-none p xs (ground arith) x m'
    ]
  ]

  pub any-true : (p : A → Bool) (xs : List A) → any p xs ≡ true → (x : A) × In x xs × (p x ≡ true)
  any-true p [] h = cc
  any-true p (y ∷ xs) h = elim (Bool-cases (p y)) [
    | inl e ↦ (y, here, e)
    | inr e ↦ let (x, m, q) = any-true p xs (ground arith) in (x, there m, q)
  ]

  pub find-some :
      (q : A → Bool) (x : A) (xs : List A) → In x xs → q x ≡ true → (y : A) × (find q xs ≡ some y)
  find-some q x [] m h = elim m [ ]
  find-some q x (y ∷ xs) m h = elim (Bool-cases (q y)) [
    | inl e ↦ (y, ground arith)
    | inr e ↦ elim (In-cons m) [
      | inl k ↦ cc (h, ap q k, e)
      | inr m' ↦ let (z, k) = find-some q x xs m' h in (z, ground arith)
    ]
  ]

  -- An update that leaves a test alone leaves the row that the test finds, updated.
  pub find-update :
      (q p : A → Bool) (f : A → A) (x : A) (xs : List A)
      → ((y : A) → q (f y) ≡ q y)
      → find q xs ≡ some x
      → find q (update p f xs) ≡ some (if p x then f x else x)
  find-update q p f x [] h k = cc
  find-update q p f x (y ∷ xs) h k = elim (Bool-cases (q y)) [
    | inl e ↦
        let same : y ≡ x = ground arith in
        subst (λ (z : A). find q (update p f (y ∷ xs)) ≡ some (if p z then f z else z)) same
          (elim (Bool-cases (p y)) [
            | inl b ↦ let kept = h y in ground arith
            | inr b ↦ ground arith
          ])
    | inr e ↦
        let rest = find-update q p f x xs h (ground arith) in
        let kept = h y in elim (Bool-cases (p y)) [ inl b ↦ ground arith | inr b ↦ ground arith ]
  ]

  -- The row that a test finds after an insert.
  pub find-append :
      (q : A → Bool) (xs : List A) (x : A)
      → find q xs ≡ none
      → q x ≡ true
      → find q (xs ++ x ∷ []) ≡ some x
  find-append q [] x h k = rw k
  find-append q (y ∷ ys) x h k = elim (Bool-cases (q y)) [
    | inl e ↦ cc (rw e at h)
    | inr e ↦ rw e (find-append q ys x (rw e at h) k)
  ]
