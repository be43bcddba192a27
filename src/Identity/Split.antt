-- ===== src/Identity/Split.antt =====
-- The splitting methods of Rust's `str` that selectors and destinations are read with.
use vvagent.Base.{
  ℕ, ◌≡◌, ◌≢◌, refl, inl, inr, Bool, [], ◌∷◌, ◌++◌, Option, none, some, arith, Text, ◌==◌,
  if◌then◌else◌, is_ascii_uppercase, ◌+◌, map, is_some, Option-cases,
}

-- `str::strip_prefix`
unfoldable pub strip_prefix : Text → Text → Option Text
strip_prefix [] s = some s
strip_prefix (p ∷ ps) [] = none
strip_prefix (p ∷ ps) (c ∷ s) = if p == c then strip_prefix ps s else none

unfoldable pub starts_with : Text → Text → Bool
unfolding strip_prefix
starts_with p s = is_some (strip_prefix p s)

-- `str::split_once` at a character: the parts before and behind its first occurrence.
unfoldable pub split_once : ℕ → Text → Option (Text × Text)
split_once at [] = none
split_once at (c ∷ s) =
    if c == at
    then some ([], s)
    else elim (split_once at s) [ none ↦ none | some (x, y) ↦ some (c ∷ x, y) ]

-- `str::rsplit_once`: the parts before and behind its last occurrence.
unfoldable pub rsplit_once : ℕ → Text → Option (Text × Text)
rsplit_once at [] = none
rsplit_once at (c ∷ s) = elim (rsplit_once at s) [
  | none ↦ if c == at then some ([], s) else none
  | some (x, y) ↦ some (c ∷ x, y)
]

-- `str::to_ascii_lowercase`
unfoldable pub lower : ℕ → ℕ
lower c = if is_ascii_uppercase c then c + 32 else c

unfoldable pub to_ascii_lowercase : Text → Text
unfolding lower
to_ascii_lowercase s = map lower s

-- The character does not occur.
abbrev pub Lacks : ℕ → Text → Type 0
Lacks a [] = Unit {0}
Lacks a (c ∷ s) = (c ≢ a) × Lacks a s

pub strip_prefix_sound : (p s t : Text) → strip_prefix p s ≡ some t → s ≡ p ++ t
unfolding strip_prefix
strip_prefix_sound [] s t h = ground arith
strip_prefix_sound (p ∷ ps) [] t h = cc
strip_prefix_sound (p ∷ ps) (c ∷ s) t h = ground (arith, strip_prefix_sound ps s t)

pub strip_prefix-append : (p s : Text) → strip_prefix p (p ++ s) ≡ some s
unfolding strip_prefix
strip_prefix-append [] s = refl
strip_prefix-append (p ∷ ps) s = ground (arith, strip_prefix-append ps s)

pub split_once_sound :
    (a : ℕ) (s x y : Text) → split_once a s ≡ some (x, y) → (s ≡ x ++ a ∷ y) × Lacks a x
unfolding split_once
split_once_sound a [] x y h = cc
split_once_sound a (c ∷ s) x y h = elim (Option-cases (split_once a s)) [
  | inl e ↦ ground arith
  | inr ((u, v), e) ↦ ground (arith, split_once_sound a s u v e)
]

pub split_once-append : (a : ℕ) (x y : Text) → Lacks a x → split_once a (x ++ a ∷ y) ≡ some (x, y)
unfolding split_once
split_once-append a [] y h = ground arith
split_once-append a (c ∷ x) y h = ground (arith, split_once-append a x y h.1)

pub rsplit_once-none : (a : ℕ) (s : Text) → rsplit_once a s ≡ none → Lacks a s
unfolding rsplit_once
rsplit_once-none a [] h = tt
rsplit_once-none a (c ∷ s) h = ground (arith, rsplit_once-none a s)

pub rsplit_once-of_Lacks : (a : ℕ) (s : Text) → Lacks a s → rsplit_once a s ≡ none
unfolding rsplit_once
rsplit_once-of_Lacks a [] h = refl
rsplit_once-of_Lacks a (c ∷ s) h = ground (arith, rsplit_once-of_Lacks a s h.1)

pub rsplit_once-append : (a : ℕ) (x y : Text) → Lacks a y → rsplit_once a (x ++ a ∷ y) ≡ some (x, y)
unfolding rsplit_once
rsplit_once-append a [] y h = ground (arith, rsplit_once-of_Lacks a y h)
rsplit_once-append a (c ∷ x) y h = ground (arith, rsplit_once-append a x y h)
