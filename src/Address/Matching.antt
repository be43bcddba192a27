-- ===== src/Address/Matching.antt =====
-- Lookup of a level, and `Address::satisfies` as an order on addresses.
use vvagent.Base.{
  ℕ, ◌<◌, ◌≡◌, sym, subst, inl, inr, ◌↔◌, true, List, [], ◌∷◌, Option, none, some, arith, ◌==◌,
  all-In, all-of_In, In, here, there, In-cons, option_eq, Bool-cases,
}
use vvagent.Address.Defs.{Level, rank, level_eq, Segment, Address, get_in, get, satisfies}
use vvagent.Address.Order.{Ordered, IsValid}

pub level_eq→≡ : (a b : Level) → level_eq a b ≡ true → a ≡ b
level_eq→≡ a b h = ground arith

pub level_eq_refl : (a : Level) → level_eq a a ≡ true
level_eq_refl a = ground arith

abbrev pub at : Level → ℕ → Segment
at l n = record { level = l; index = n }

-- A level that is found is a segment of the address.
pub segment-at : (s : Segment) (l : Level) (n : ℕ) → s.level ≡ l → s.index ≡ n → s ≡ at l n
segment-at s l n p q = λ i. record { level = p i; index = q i }

pub get_in-In : (ss : List Segment) (l : Level) (n : ℕ) → get_in ss l ≡ some n → In (at l n) ss
get_in-In [] l n h = cc
get_in-In (s ∷ ss) l n h = elim (Bool-cases (level_eq s.level l)) [
  | inl e ↦
      subst (λ y. In y (s ∷ ss)) (segment-at s l n (level_eq→≡ s.level l e) (ground arith)) here
  | inr e ↦ there (get_in-In ss l n (rw e at h))
]

-- The levels behind a segment in order are all inner to it.
pub Ordered-above :
    (p : Level) (ss : List Segment)
    → Ordered (some p) ss
    → (s : Segment) → In s ss
    → rank p < rank s.level
Ordered-above p [] o s m = elim m [ ]
Ordered-above p (t ∷ ss) o s m = elim (In-cons m) [
  | inl q ↦ subst (λ (y : Segment). rank p < rank y.level) (sym q) o.1
  | inr m' ↦ let h = Ordered-above t.level ss o.2 s m' in omega arith
]

pub In-get_in :
    (last : Option Level) (ss : List Segment) (s : Segment)
    → Ordered last ss
    → In s ss
    → get_in ss s.level ≡ some s.index
In-get_in last [] s o m = elim m [ ]
In-get_in last (t ∷ ss) s o m = elim (In-cons m) [
  | inl q ↦
      subst (λ (y : Segment). get_in (t ∷ ss) y.level ≡ some y.index) (sym q)
        (ground (arith, level_eq_refl t.level))
  | inr m' ↦
      let h = Ordered-above t.level ss o.2 s m' in
      ground (arith, In-get_in (some t.level) ss s o.2 m')
]

-- In a valid address a lookup finds exactly the segments.
pub get_iff :
    (a : Address) (l : Level) (n : ℕ) → IsValid a → (get a l ≡ some n) ↔ In (at l n) a.segments
unfolding get
get_iff a l n v = (get_in-In a.segments l n, In-get_in none a.segments (at l n) v.ordered)

wanted_iff : (o : Option ℕ) (n : ℕ) → (option_eq ◌==◌ o (some n) ≡ true) ↔ (o ≡ some n)
wanted_iff none n = ground arith
wanted_iff (some m) n = ground arith

-- An address satisfies a valid pattern exactly when every level that the pattern names is present
-- with the same index; the levels that the pattern omits are free.
pub satisfies_iff :
    (a pattern : Address)
    → IsValid pattern
    → (satisfies a pattern ≡ true)
      ↔ ((l : Level) (n : ℕ) → get pattern l ≡ some n → get a l ≡ some n)
unfolding satisfies
satisfies_iff a pattern v = (
  λ h l n e.
      (wanted_iff (get a l) n).0
        (all-In _ pattern.segments h (at l n) ((get_iff pattern l n v).0 e)),
  λ h. all-of_In _ pattern.segments (λ s m.
      (wanted_iff (get a s.level) s.index).1
        (h s.level s.index ((get_iff pattern s.level s.index v).1 m))),
)

-- So satisfaction is a preorder on valid addresses, and the empty pattern is satisfied by all.
pub satisfies_refl : (a : Address) → IsValid a → satisfies a a ≡ true
satisfies_refl a v = (satisfies_iff a a v).1 (λ l n e. e)

-- An address that satisfies a valid pattern, which itself satisfies a second one, satisfies the
-- second.
pub satisfies_trans :
    (a b c : Address)
    → IsValid b
    → IsValid c
    → satisfies a b ≡ true
    → satisfies b c ≡ true
    → satisfies a c ≡ true
satisfies_trans a b c vb vc h k =
    (satisfies_iff a c vc).1
      (λ l n e. (satisfies_iff a b vb).0 h l n ((satisfies_iff b c vc).0 k l n e))
