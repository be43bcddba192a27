-- ===== src/Base/Examples.antt =====
-- Two byte strings are compared.
use vvagent.Base.{ℕ, ◌≡◌, ◌↔◌, true, List, [], ◌∷◌}
use vvagent.Base.Bits.{constant_time_eq, constant_time_eq_iff}

abbrev stored : List ℕ
stored = 7 ∷ 9 ∷ []

abbrev presented : List ℕ
presented = 7 ∷ 8 ∷ []

constant_time_eq_iff_example : (constant_time_eq stored presented ≡ true) ↔ (stored ≡ presented)
constant_time_eq_iff_example = constant_time_eq_iff stored presented
