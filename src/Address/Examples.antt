-- ===== src/Address/Examples.antt =====
-- The address `s2.t1.p3` and others, run through the code and the theorems.
use vvagent.Base.{ℕ, ◌≤◌, ◌≡◌, ◌↔◌, [], ◌∷◌, arith, here, there}
use vvagent.Error.{ok}
use vvagent.Address.Defs.{
  Level, space, tab, pane, window, frame, Segment, Address, parse, display, shared_prefix, join,
}
use vvagent.Address.Order.{IsValid}
use vvagent.Address.RoundTrip.{parse-display}
use vvagent.Address.Accepted.{parse_sound}
use vvagent.Address.Join.{Outside, join_iff}
use vvagent.Address.Nearness.{Together, shared_prefix_iff}

abbrev at : Level → ℕ → Segment
at l n = record { level = l; index = n }

abbrev pane_of_two : Address
pane_of_two = record { segments = at space 2 ∷ at tab 1 ∷ at pane 3 ∷ [] }

abbrev any_tab : Address
any_tab = record { segments = at tab 1 ∷ [] }

abbrev region : Address
region = record { segments = at space 2 ∷ at tab 1 ∷ [] }

abbrev inner : Address
inner = record { segments = at pane 3 ∷ [] }

pane_of_two-IsValid : IsValid pane_of_two
pane_of_two-IsValid = record {
  ordered = (omega arith, tt, (omega arith, omega arith, (omega arith, omega arith, tt)));
  fits = (omega arith, (omega arith, (omega arith, tt)));
}

region-IsValid : IsValid region
region-IsValid = record {
  ordered = (omega arith, tt, (omega arith, omega arith, tt));
  fits = (omega arith, (omega arith, tt));
}

inner-IsValid : IsValid inner
inner-IsValid = record { ordered = (omega arith, tt, tt); fits = (omega arith, tt) }

parsed : parse (display pane_of_two) ≡ ok pane_of_two
parsed = parse-display pane_of_two pane_of_two-IsValid (λ e. cc)

region-Outside-inner : Outside region.segments inner.segments
region-Outside-inner s t (here) here = omega arith
region-Outside-inner s t (there here) here = omega arith
region-Outside-inner s t (there (there m)) n = elim m [ ]
region-Outside-inner s t m (there n) = elim n [ ]

parse-display_example : parse (display pane_of_two) ≡ ok pane_of_two
parse-display_example = parse-display pane_of_two pane_of_two-IsValid (λ e. cc)

parse_sound_example : IsValid pane_of_two × (display pane_of_two ≡ display pane_of_two)
parse_sound_example = parse_sound (display pane_of_two) pane_of_two parsed

join_iff_example :
    ((a : Address) × (join region inner ≡ ok a) × IsValid a)
    ↔ Outside region.segments inner.segments
join_iff_example = join_iff region inner region-IsValid inner-IsValid

shared_prefix_iff_example : (2 ≤ shared_prefix pane_of_two region) ↔ (
    (1 ≤ 2 → Together pane_of_two region space)
    × (2 ≤ 2 → Together pane_of_two region tab)
    × (3 ≤ 2 → Together pane_of_two region window)
    × (4 ≤ 2 → Together pane_of_two region frame)
    × (5 ≤ 2 → Together pane_of_two region pane))
shared_prefix_iff_example = shared_prefix_iff pane_of_two region 2 (omega arith)
