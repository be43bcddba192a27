-- ===== src/Address/Nearness.antt =====
-- `Address::shared_prefix` and `Address::stable_anchor`.
use vvagent.Base.{
  ℕ, zero, suc, ◌≤◌, ◌<◌, ◌≡◌, refl, sym, subst, ◌∙◌, inl, inr, ◌↔◌, Bool, true, false, not, ◌&&◌,
  List, [], ◌∷◌, ◌++◌, Option, none, some, arith, ◌==◌, all, take, length, find, find-In, find-none,
  In, here, there, In-cons, In-append, In-append_left, In-append_right, Option-cases, Bool-cases,
}
use mathlib.Core.List.{reverse, reverse-cons}
use vvagent.Address.Defs.{
  Level, rank, level_eq, levels, is_instance_unique, Segment, Address, get, agree, shared_in,
  shared_prefix, stable_anchor, space, tab, window, frame, pane,
}
use vvagent.Address.Order.{Ordered, IsValid}
use vvagent.Address.Matching.{Ordered-above}

-- Both addresses name the level, with the same index.
pub agree_iff :
    (a b : Address) (l : Level)
    → (agree a b l ≡ true) ↔ ((n : ℕ) × (get a l ≡ some n) × (get b l ≡ some n))
unfolding agree
agree_iff a b l = (forth (get a l) (get b l), λ h. ground arith)
  where
    forth :
        (x y : Option ℕ)
        → (elim x [
          | none ↦ false
          | some mine ↦ elim y [ none ↦ false | some theirs ↦ mine == theirs ]
        ])
          ≡ true
        → (n : ℕ) × (x ≡ some n) × (y ≡ some n)
    forth none y h = cc
    forth (some m) none h = cc
    forth (some m) (some n) h = (m, refl, ground arith)

agree_comm : (a b : Address) (l : Level) → agree a b l ≡ agree b a l
unfolding agree
agree_comm a b l = ground arith

shared_in_comm : (a b : Address) (ls : List Level) → shared_in a b ls ≡ shared_in b a ls
unfolding shared_in
shared_in_comm a b [] = refl
shared_in_comm a b (l ∷ ls) = rw (agree_comm a b l, shared_in_comm a b ls)

-- Nearness is symmetric.
pub shared_prefix_comm : (a b : Address) → shared_prefix a b ≡ shared_prefix b a
unfolding shared_prefix
shared_prefix_comm a b = shared_in_comm a b levels

le-shared_in_iff :
    (a b : Address) (ls : List Level) (n : ℕ)
    → n ≤ length ls
    → (n ≤ shared_in a b ls) ↔ (all (agree a b) (take n ls) ≡ true)
unfolding shared_in
le-shared_in_iff a b ls zero h = (λ _. refl, λ _. omega arith)
le-shared_in_iff a b [] (suc n) h = absurd (omega arith)
le-shared_in_iff a b (l ∷ ls) (suc n) h =
    let ih = le-shared_in_iff a b ls n (omega arith) in
    elim (Bool-cases (agree a b l)) [
      | inl e ↦ rw e ((λ k. ih.0 (omega arith)), (λ k. let r = ih.1 k in omega arith))
      | inr e ↦ rw e ((λ k. absurd (omega arith)), (λ k. cc))
    ]

-- The first `n` levels, named.
leading :
    (p : Level → Bool) (n : ℕ)
    → n ≤ 5
    → (all p (take n levels) ≡ true) ↔ (
        (1 ≤ n → p space ≡ true)
        × (2 ≤ n → p tab ≡ true)
        × (3 ≤ n → p window ≡ true)
        × (4 ≤ n → p frame ≡ true)
        × (5 ≤ n → p pane ≡ true))
leading p zero h = ground arith
leading p (suc zero) h = ground arith
leading p (suc (suc zero)) h = ground arith
leading p (suc (suc (suc zero))) h = ground arith
leading p (suc (suc (suc (suc zero)))) h = ground arith
leading p (suc (suc (suc (suc (suc zero))))) h = ground arith
leading p (suc (suc (suc (suc (suc (suc n)))))) h = absurd (omega arith)

-- Both addresses have the same index at the level.
abbrev pub Together : Address → Address → Level → Type 0
Together a b l = (i : ℕ) × (get a l ≡ some i) × (get b l ≡ some i)

-- The shared prefix reaches a depth, five at most, exactly when both addresses have the same index,
-- missing from neither, at each level down to that depth: the space first, then the tab, the window,
-- the frame and the pane.
pub shared_prefix_iff :
    (a b : Address) (n : ℕ)
    → n ≤ 5
    → (n ≤ shared_prefix a b) ↔ (
        (1 ≤ n → Together a b space)
        × (2 ≤ n → Together a b tab)
        × (3 ≤ n → Together a b window)
        × (4 ≤ n → Together a b frame)
        × (5 ≤ n → Together a b pane))
unfolding shared_prefix
shared_prefix_iff a b n h =
    let counted = le-shared_in_iff a b levels n h in
    let named = leading (agree a b) n h in
    (
      λ k.
          let (s, t, w, f, p) = named.0 (counted.0 k) in
          (
            λ q. (agree_iff a b space).0 (s q),
            λ q. (agree_iff a b tab).0 (t q),
            λ q. (agree_iff a b window).0 (w q),
            λ q. (agree_iff a b frame).0 (f q),
            λ q. (agree_iff a b pane).0 (p q),
          ),
      λ (s, t, w, f, p). counted.1 (
          named.1 (
            λ q. (agree_iff a b space).1 (s q),
            λ q. (agree_iff a b tab).1 (t q),
            λ q. (agree_iff a b window).1 (w q),
            λ q. (agree_iff a b frame).1 (f q),
            λ q. (agree_iff a b pane).1 (p q),
          )),
    )

shared_in-le-length : (a b : Address) (ls : List Level) → shared_in a b ls ≤ length ls
unfolding shared_in
shared_in-le-length a b [] = omega arith
shared_in-le-length a b (l ∷ ls) = ground (arith, shared_in-le-length a b ls)

pub shared_prefix-le-five : (a b : Address) → shared_prefix a b ≤ 5
unfolding shared_prefix
shared_prefix-le-five a b = shared_in-le-length a b levels

abbrev survives : Segment → Bool
survives s = is_instance_unique s.level && not (level_eq s.level space)

-- The level is a window, a frame or a pane.
survives_iff : (s : Segment) → (survives s ≡ true) ↔ (2 ≤ rank s.level)
survives_iff s = ground arith

In-reverse : (s : Segment) (ss : List Segment) → In s (reverse ss) → In s ss
In-reverse s [] m = m
In-reverse s (t ∷ ss) m = elim (In-append (reverse ss) (rw (reverse-cons t ss) at m)) [
  | inl l ↦ there (In-reverse s ss l)
  | inr r ↦ elim (In-cons r) [
    | inl q ↦ subst (λ y. In y (t ∷ ss)) (sym q) here
    | inr e ↦ elim e [ ]
  ]
]

In-of_reverse : (s : Segment) (ss : List Segment) → In s ss → In s (reverse ss)
In-of_reverse s [] m = m
In-of_reverse s (t ∷ ss) m = rw (reverse-cons t ss) (elim (In-cons m) [
  | inl q ↦ In-append_right (reverse ss) (subst (λ y. In y (t ∷ [])) (sym q) here)
  | inr m' ↦ In-append_left (t ∷ []) (In-of_reverse s ss m')
])

find-append {ℓ} :
    {A : Type ℓ} (p : A → Bool) (xs ys : List A)
    → find p (xs ++ ys) ≡ (elim (find p xs) [ none ↦ find p ys | some a ↦ some a ])
find-append p [] ys = refl
find-append p (x ∷ xs) ys = ground (arith, find-append p xs ys)

anchor_split :
    (x : Segment) (ss : List Segment)
    → find survives (reverse (x ∷ ss))
      ≡ (elim (find survives (reverse ss)) [ none ↦ find survives (x ∷ []) | some a ↦ some a ])
anchor_split x ss = rw (reverse-cons x ss) (find-append survives (reverse ss) (x ∷ []))

anchor_innermost :
    (last : Option Level) (ss : List Segment) (s : Segment)
    → Ordered last ss
    → find survives (reverse ss) ≡ some s
    → (t : Segment) → In t ss
    → 2 ≤ rank t.level
    → rank t.level ≤ rank s.level
anchor_innermost last [] s o e t m h = elim m [ ]
anchor_innermost last (x ∷ ss) s o e t m h = elim (Option-cases (find survives (reverse ss))) [
  | inl none_inner ↦
      let q : x ≡ s = ground (arith, anchor_split x ss) in
      elim (In-cons m) [
        | inl t_x ↦ subst (λ (y : Segment). rank t.level ≤ rank y.level) (t_x ∙ q) (omega arith)
        | inr m' ↦
            let lost = find-none survives (reverse ss) none_inner t (In-of_reverse t ss m') in
            absurd (cc (lost, (survives_iff t).1 h))
      ]
  | inr (y, inner) ↦
      let found : find survives (reverse ss) ≡ some s = ground (arith, anchor_split x ss) in
      elim (In-cons m) [
        | inl t_x ↦
            let inside =
              Ordered-above x.level ss o.2 s
                (In-reverse s ss (find-In survives (reverse ss) s found).0) in
            subst (λ (z : Segment). rank z.level ≤ rank s.level) (sym t_x) (omega arith)
        | inr m' ↦ anchor_innermost (some x.level) ss s o.2 found t m' h
      ]
]

-- The stable anchor of a valid address is its innermost segment at a window, a frame or a pane.
pub stable_anchor-some :
    (a : Address) (s : Segment)
    → IsValid a
    → stable_anchor a ≡ some s
    → In s a.segments
      × (2 ≤ rank s.level)
      × ((t : Segment) → In t a.segments → 2 ≤ rank t.level → rank t.level ≤ rank s.level)
unfolding stable_anchor
stable_anchor-some a s v h =
    let (m, k) = find-In survives (reverse a.segments) s h in
    (
      In-reverse s a.segments m,
      (survives_iff s).0 k,
      anchor_innermost none a.segments s v.ordered h,
    )

-- An address has no stable anchor only where none of its segments is at a window, a frame or a pane.
pub stable_anchor-none :
    (a : Address) → stable_anchor a ≡ none → (t : Segment) → In t a.segments → rank t.level < 2
unfolding stable_anchor
stable_anchor-none a h t m =
    let lost = find-none survives (reverse a.segments) h t (In-of_reverse t a.segments m) in
    ground arith
