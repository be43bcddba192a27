-- ===== src/Store/Sequence.antt =====
-- `ORDER BY recipient_sequence`: the rows come back sorted, the same ones.
use vvagent.Base.{
  ◌≤◌, ◌≡◌, sym, ap, subst, ◌⊎◌, inl, inr, List, [], ◌∷◌, arith, leb, In, here, there, In-cons,
  Bool-cases,
}
use vvagent.Store.Tables.{Message}
use vvagent.Store.Receive.{insert_by_sequence, by_sequence}

insert_by_sequence-In :
    (m x : Message) (ms : List Message) → In x (insert_by_sequence m ms) → (x ≡ m) ⊎ In x ms
unfolding insert_by_sequence
insert_by_sequence-In m x [] i = In-cons i
insert_by_sequence-In m x (n ∷ ns) i =
    elim (Bool-cases (leb m.recipient_sequence n.recipient_sequence)) [
      | inl le ↦ In-cons (rw le at i)
      | inr gt ↦ elim (In-cons (rw gt at i)) [
        | inl q ↦ inr (subst (λ (y : Message). In y (n ∷ ns)) (sym q) here)
        | inr j ↦ elim (insert_by_sequence-In m x ns j) [ inl q ↦ inl q | inr k ↦ inr (there k) ]
      ]
    ]

pub by_sequence-In : (x : Message) (ms : List Message) → In x (by_sequence ms) → In x ms
unfolding by_sequence
by_sequence-In x [] i = i
by_sequence-In x (m ∷ ms) i = elim (insert_by_sequence-In m x (by_sequence ms) i) [
  | inl q ↦ subst (λ (y : Message). In y (m ∷ ms)) (sym q) here
  | inr j ↦ there (by_sequence-In x ms j)
]

-- The rows stand in the order of their sequence.
abbrev pub Sorted : List Message → Type 0
Sorted [] = Unit {0}
Sorted (m ∷ ms) =
    ((n : Message) → In n ms → m.recipient_sequence ≤ n.recipient_sequence) × Sorted ms

insert_by_sequence-Sorted :
    (m : Message) (ms : List Message) → Sorted ms → Sorted (insert_by_sequence m ms)
unfolding insert_by_sequence
insert_by_sequence-Sorted m [] h = ((λ n i. elim i [ ]), tt)
insert_by_sequence-Sorted m (n ∷ ns) h =
    elim (Bool-cases (leb m.recipient_sequence n.recipient_sequence)) [
      | inl le ↦ rw le (
        (λ x i. elim (In-cons i) [
          | inl q ↦ ground (arith, ap (λ (y : Message). y.recipient_sequence) q)
          | inr j ↦ ground (arith, h.0 x j)
        ]),
        h,
      )
      | inr gt ↦ rw gt (
        (λ x i. elim (insert_by_sequence-In m x ns i) [
          | inl q ↦ ground (arith, ap (λ (y : Message). y.recipient_sequence) q)
          | inr j ↦ h.0 x j
        ]),
        insert_by_sequence-Sorted m ns h.1,
      )
    ]

pub by_sequence-Sorted : (ms : List Message) → Sorted (by_sequence ms)
unfolding by_sequence
by_sequence-Sorted [] = tt
by_sequence-Sorted (m ∷ ms) = insert_by_sequence-Sorted m (by_sequence ms) (by_sequence-Sorted ms)

insert_by_sequence-In_of :
    (m x : Message) (ms : List Message) → (x ≡ m) ⊎ In x ms → In x (insert_by_sequence m ms)
unfolding insert_by_sequence
insert_by_sequence-In_of m x [] (inl q) = subst (λ (y : Message). In y (m ∷ [])) (sym q) here
insert_by_sequence-In_of m x [] (inr i) = elim i [ ]
insert_by_sequence-In_of m x (n ∷ ns) h =
    elim (Bool-cases (leb m.recipient_sequence n.recipient_sequence)) [
      | inl le ↦ rw le (elim h [
        | inl q ↦ subst (λ (y : Message). In y (m ∷ n ∷ ns)) (sym q) here
        | inr i ↦ there i
      ])
      | inr gt ↦ rw gt (elim h [
        | inl q ↦ there (insert_by_sequence-In_of m x ns (inl q))
        | inr i ↦ elim (In-cons i) [
          | inl q ↦ subst (λ (y : Message). In y (n ∷ insert_by_sequence m ns)) (sym q) here
          | inr j ↦ there (insert_by_sequence-In_of m x ns (inr j))
        ]
      ])
    ]

pub by_sequence-In_of : (x : Message) (ms : List Message) → In x ms → In x (by_sequence ms)
unfolding by_sequence
by_sequence-In_of x [] i = i
by_sequence-In_of x (m ∷ ms) i =
    insert_by_sequence-In_of m x (by_sequence ms)
      (elim (In-cons i) [ inl q ↦ inl q | inr j ↦ inr (by_sequence-In_of x ms j) ])
