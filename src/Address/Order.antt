-- ===== src/Address/Order.antt =====
-- What `Address::new` accepts: positive indices, at levels in strict containment order.
use vvagent.Base.{
  ℕ, ◌-◌, ◌^◌, ◌≤◌, ◌<◌, ◌≡◌, refl, ◌↔◌, List, [], ◌∷◌, Option, none, some, arith, length,
}
use vvagent.Error.{ok, ◌>>=◌, >>=-eq-ok}
use vvagent.Address.Defs.{Level, rank, Segment, Address, check_order, new}

abbrev pub Above : Option Level → Level → Type 0
Above none l = Unit {0}
Above (some p) l = rank p < rank l

-- One-based indices, and each level strictly inside the one before.
abbrev pub Ordered : Option Level → List Segment → Type 0
Ordered last [] = Unit {0}
Ordered last (s ∷ ss) = (0 < s.index) × Above last s.level × Ordered (some s.level) ss

-- Every index fits Rust's `u32`.
abbrev pub Fits : List Segment → Type 0
Fits [] = Unit {0}
Fits (s ∷ ss) = (s.index < 2 ^ 32) × Fits ss

pub record IsValid (a : Address) : Type 0 where
  pub ordered : Ordered none a.segments
  pub fits : Fits a.segments

pub check_order-Ordered :
    (last : Option Level) (ss : List Segment) → check_order last ss ≡ ok tt → Ordered last ss
unfolding check_order
check_order-Ordered last [] h = tt
check_order-Ordered none (s ∷ ss) h = ground (arith, check_order-Ordered (some s.level) ss)
check_order-Ordered (some p) (s ∷ ss) h = ground (arith, check_order-Ordered (some s.level) ss)

pub check_order-of_Ordered :
    (last : Option Level) (ss : List Segment) → Ordered last ss → check_order last ss ≡ ok tt
unfolding check_order
check_order-of_Ordered last [] h = refl
check_order-of_Ordered none (s ∷ ss) h = ground (arith, check_order-of_Ordered (some s.level) ss)
check_order-of_Ordered (some p) (s ∷ ss) h =
    ground (arith, check_order-of_Ordered (some s.level) ss)

-- `Address::new` keeps the segments it is given, and succeeds exactly when their indices are
-- positive and their levels strictly increase in containment order.
pub new_iff :
    (ss : List Segment) (a : Address) → (new ss ≡ ok a) ↔ ((a.segments ≡ ss) × Ordered none ss)
unfolding new
new_iff ss a = (forth, back)
  where
    forth :
        (check_order none ss >>= λ _. ok (record { segments = ss })) ≡ ok a
        → (a.segments ≡ ss) × Ordered none ss
    forth h =
        let (u, checked, e) = >>=-eq-ok (check_order none ss) _ h in
        (ground arith, check_order-Ordered none ss checked)

    back :
        (a.segments ≡ ss) × Ordered none ss
        → (check_order none ss >>= λ _. ok (record { segments = ss })) ≡ ok a
    back (e, o) = rw (check_order-of_Ordered none ss o) (ground arith)

abbrev pub rank_bound : Option Level → ℕ
rank_bound none = 5
rank_bound (some p) = 4 - rank p

rank-le-four : (l : Level) → rank l ≤ 4
rank-le-four l = ground arith

length-le-bound :
    (last : Option Level) (ss : List Segment) → Ordered last ss → length ss ≤ rank_bound last
length-le-bound last [] h = omega arith
length-le-bound none (s ∷ ss) h =
    omega (arith, length-le-bound (some s.level) ss h.2, rank-le-four s.level)
length-le-bound (some p) (s ∷ ss) h =
    omega (arith, length-le-bound (some s.level) ss h.2, rank-le-four s.level)

-- So no address has more than five segments.
pub length-le-five : (ss : List Segment) → Ordered none ss → length ss ≤ 5
length-le-five ss h = length-le-bound none ss h
