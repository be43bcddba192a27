-- ===== src/Address/Join.antt =====
-- `Address::join`: when it succeeds and what the joined address names.
use vvagent.Base.{
  ℕ, ◌<◌, ◌≡◌, refl, sym, subst, ◌⊎◌, inl, inr, ◌↔◌, true, false, List, [], ◌∷◌, ◌++◌, Option, none,
  some, arith, In, here, there, In-cons, In-append, In-append_left, In-append_right, Bool-cases,
}
use vvagent.Error.{ok}
use vvagent.Address.Defs.{Level, rank, Segment, Address, get, satisfies, last_level, overlaps, join}
use vvagent.Address.Order.{Ordered, Above, Fits, IsValid, new_iff}
use vvagent.Address.Matching.{at, get_iff, satisfies_iff, Ordered-above}

-- Every level of the first list is outside every level of the second.
abbrev pub Outside : List Segment → List Segment → Type 0
Outside ss ts = (s t : Segment) → In s ss → In t ts → rank s.level < rank t.level

last_level-In :
    (s : Segment) (ss : List Segment)
    → (l : Segment) × (last_level (s ∷ ss) ≡ some l.level) × In l (s ∷ ss)
unfolding last_level
last_level-In s [] = (s, refl, here)
last_level-In s (t ∷ ss) = let (l, e, m) = last_level-In t ss in (l, e, there m)

abbrev AboveAll : Option Level → List Segment → Type 0
AboveAll last ts = (t : Segment) → In t ts → Above last t.level

Ordered-under :
    (last : Option Level) (ts : List Segment) → Ordered none ts → AboveAll last ts → Ordered last ts
Ordered-under last [] o h = tt
Ordered-under last (t ∷ ts) o h = (o.0, h t here, o.2)

Ordered-append :
    (last : Option Level) (ss ts : List Segment)
    → Ordered last ss
    → Ordered none ts
    → Outside ss ts
    → AboveAll last ts
    → Ordered last (ss ++ ts)
Ordered-append last [] ts o p out h = Ordered-under last ts p h
Ordered-append last (s ∷ ss) ts o p out h = (
  o.0,
  o.1,
  Ordered-append (some s.level) ss ts o.2 p (λ x y m. out x y (there m)) (λ t. out s t here),
)

Outside-of_Ordered :
    (last : Option Level) (ss ts : List Segment) → Ordered last (ss ++ ts) → Outside ss ts
Outside-of_Ordered last [] ts o x y m n = elim m [ ]
Outside-of_Ordered last (s ∷ ss) ts o x y m n = elim (In-cons m) [
  | inl q ↦
      subst (λ (z : Segment). rank z.level < rank y.level) (sym q)
        (Ordered-above s.level (ss ++ ts) o.2 y (In-append_right ss n))
  | inr m' ↦ Outside-of_Ordered (some s.level) ss ts o.2 x y m' n
]

Fits-append : (ss ts : List Segment) → Fits ss → Fits ts → Fits (ss ++ ts)
Fits-append [] ts h k = k
Fits-append (s ∷ ss) ts h k = (h.0, Fits-append ss ts h.1 k)

overlaps-of_Outside :
    (ss ts : List Segment)
    → Outside ss ts
    → overlaps (record { segments = ss }) (record { segments = ts }) ≡ false
unfolding overlaps
overlaps-of_Outside ss [] out = refl
overlaps-of_Outside [] (t ∷ ts) out = unfold last_level in refl
overlaps-of_Outside (s ∷ ss) (t ∷ ts) out =
    let (l, e, m) = last_level-In s ss in
    let apart : rank l.level < rank t.level = out l t m here in ground arith

join_sound :
    (prefix suffix a : Address)
    → join prefix suffix ≡ ok a
    → (a.segments ≡ prefix.segments ++ suffix.segments)
      × Ordered none (prefix.segments ++ suffix.segments)
unfolding join
join_sound prefix suffix a h = elim (Bool-cases (overlaps prefix suffix)) [
  | inl e ↦ cc (rw e at h)
  | inr e ↦ (new_iff (prefix.segments ++ suffix.segments) a).0 (rw e at h)
]

-- Two valid addresses join exactly when every level of the first is outside every level of the
-- second, and the result is then a valid address.
pub join_iff :
    (prefix suffix : Address)
    → IsValid prefix
    → IsValid suffix
    → ((a : Address) × (join prefix suffix ≡ ok a) × IsValid a)
      ↔ Outside prefix.segments suffix.segments
unfolding join
join_iff prefix suffix v w = (forth, back)
  where
    forth :
        (a : Address) × (join prefix suffix ≡ ok a) × IsValid a
        → Outside prefix.segments suffix.segments
    forth (a, h, _) =
        Outside-of_Ordered none prefix.segments suffix.segments (join_sound prefix suffix a h).1

    joined : Address
    joined = record { segments = prefix.segments ++ suffix.segments }

    back :
        Outside prefix.segments suffix.segments
        → (a : Address) × (join prefix suffix ≡ ok a) × IsValid a
    back out =
        let o =
          Ordered-append none prefix.segments suffix.segments v.ordered w.ordered out (λ t m. tt) in
        (
          joined,
          rw (overlaps-of_Outside prefix.segments suffix.segments out)
              ((new_iff joined.segments joined).1 (refl, o)),
          record { ordered = o; fits = Fits-append prefix.segments suffix.segments v.fits w.fits },
        )

-- A joined address has at each level the index that one of the two parts has there, and so
-- satisfies both parts as patterns.
pub get-join :
    (prefix suffix a : Address)
    → IsValid prefix
    → IsValid suffix
    → join prefix suffix ≡ ok a
    → ((l : Level) (n : ℕ)
        → (get a l ≡ some n) ↔ ((get prefix l ≡ some n) ⊎ (get suffix l ≡ some n)))
      × (satisfies a prefix ≡ true)
      × (satisfies a suffix ≡ true)
get-join prefix suffix a v w h = (
  λ l n. (λ e. split l n e, λ e. unite l n e),
  (satisfies_iff a prefix v).1 (λ l n e. unite l n (inl e)),
  (satisfies_iff a suffix w).1 (λ l n e. unite l n (inr e)),
)
  where
    sound :
        (a.segments ≡ prefix.segments ++ suffix.segments)
        × Ordered none (prefix.segments ++ suffix.segments)
    sound = join_sound prefix suffix a h

    valid : IsValid a
    valid = record {
      ordered = rw sound.0 sound.1;
      fits = rw sound.0 (Fits-append prefix.segments suffix.segments v.fits w.fits);
    }

    split :
        (l : Level) (n : ℕ) → get a l ≡ some n → (get prefix l ≡ some n) ⊎ (get suffix l ≡ some n)
    split l n e =
        elim (In-append prefix.segments (subst (In (at l n)) sound.0 ((get_iff a l n valid).0 e))) [
          | inl m ↦ inl ((get_iff prefix l n v).1 m)
          | inr m ↦ inr ((get_iff suffix l n w).1 m)
        ]

    unite :
        (l : Level) (n : ℕ) → (get prefix l ≡ some n) ⊎ (get suffix l ≡ some n) → get a l ≡ some n
    unite l n (inl e) = (get_iff a l n valid).1 (
        subst (In (at l n)) (sym sound.0)
          (In-append_left suffix.segments ((get_iff prefix l n v).0 e)))
    unite l n (inr e) = (get_iff a l n valid).1 (
        subst (In (at l n)) (sym sound.0)
          (In-append_right prefix.segments ((get_iff suffix l n w).0 e)))
