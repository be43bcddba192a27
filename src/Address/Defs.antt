-- ===== src/Address/Defs.antt =====
-- The types of address.rs and the operations of `Level` and `Address`.
use vvagent.Base.{
  ℕ, suc, Bool, true, false, not, ◌&&◌, List, [], ◌∷◌, ◌++◌, Option, none, some, Text, ltb, leb,
  ◌==◌, if◌then◌else◌, all, find, head?, length, is_empty, len, codes, is_ascii_digit, option_eq,
}
use mathlib.Core.List.{reverse}
use mathlib.Core.Option
use vvagent.Error.{Result, ok, err, ◌>>=◌, ◌>>◌, invalid}
use vvagent.Address.Decimal.{decimal, parse_u32}

abbrev pub max_address_bytes : ℕ
max_address_bytes = 64

pub data Level : Type 0 where
  space tab window frame pane : Level

-- The discriminants are the containment order.
abbrev pub rank : Level → ℕ
rank space = 0
rank tab = 1
rank window = 2
rank frame = 3
rank pane = 4

abbrev pub level_eq : Level → Level → Bool
level_eq a b = rank a == rank b

abbrev pub levels : List Level
levels = space ∷ tab ∷ window ∷ frame ∷ pane ∷ []

abbrev pub letter : Level → ℕ
letter space = b's'
letter tab = b't'
letter window = b'w'
letter frame = b'f'
letter pane = b'p'

unfoldable pub name : Level → Text
name space = codes "space"
name tab = codes "tab"
name window = codes "window"
name frame = codes "frame"
name pane = codes "pane"

unfoldable pub from_letter : ℕ → Option Level
from_letter c =
    if c == b's'
    then some space
    else if c == b't'
    then some tab
    else if c == b'w'
    then some window
    else if c == b'f'
    then some frame
    else if c == b'p'
    then some pane
    else none

abbrev pub is_instance_unique : Level → Bool
is_instance_unique l = not (level_eq l tab)

pub record Segment : Type 0 where
  pub level : Level
  pub index : ℕ

pub record Address : Type 0 where
  pub segments : List Segment

-- The loop of `Address::new`, over what is left of the segments and the level before them.
unfoldable pub check_order : Option Level → List Segment → Result (Unit {0})
check_order last [] = ok tt
check_order last (s ∷ ss) =
    let rest = check_order (some s.level) ss in
    if s.index == 0 then err (invalid (codes "an address index is one-based")) else elim last [
      | none ↦ rest
      | some previous ↦
          if leb (rank s.level) (rank previous)
          then err (
              invalid (
                codes "`"
                ++ letter s.level
                  ∷ codes
                      "` is out of containment order or repeated; use s, t, w, f, p in that order"))
          else rest
    ]

unfoldable pub new : List Segment → Result Address
new ss = do check_order none ss; ok (record { segments = ss })

unfoldable pub is_digit_text : Text → Bool
is_digit_text = all is_ascii_digit

-- The part of the loop body of `Address::parse` behind the digits.
unfoldable pub segment : ℕ → Level → Text → Result Segment
segment c level digits =
    if is_empty digits
    then err (invalid (codes "`" ++ c ∷ codes "` has no index"))
    else if ltb 1 (length digits) && option_eq ◌==◌ (head? digits) (some b'0')
    then err (invalid (codes "`" ++ c ∷ (digits ++ codes "` has a leading zero")))
    else elim (parse_u32 digits) [
      | none ↦ err (invalid (codes "`" ++ (digits ++ codes "` does not fit an address index")))
      | some index ↦ ok (record { level = level; index = index })
    ]

unfoldable pub level_of : ℕ → Result Level
level_of c = elim (from_letter c) [
  | none ↦ err (invalid (codes "`" ++ c ∷ codes "` is not an address level; use s, t, w, f or p"))
  | some level ↦ ok level
]

-- The two loops of `Address::parse` in one pass. The arguments are the loops' variables: the letter
-- and its level, the digits so far, the segments so far and the unread text.
unfoldable pub read : ℕ → Level → Text → List Segment → Text → Result Address
read c level digits done [] = do s ← segment c level digits; new (done ++ s ∷ [])
read c level digits done (d ∷ rest) = elim (is_ascii_digit d) [
  | true ↦ read c level (digits ++ d ∷ []) done rest
  | false ↦
      segment c level digits >>= λ s. level_of d >>= λ next. read d next [] (done ++ s ∷ []) rest
]

unfoldable pub parse : Text → Result Address
parse [] = err (invalid (codes "an address needs at least one segment"))
parse (c ∷ rest) =
    if ltb max_address_bytes (len (c ∷ rest))
    then err (invalid (codes "an address is at most 64 bytes"))
    else level_of c >>= λ level. read c level [] [] rest

abbrev pub get_in : List Segment → Level → Option ℕ
get_in ss level = Option.map (λ (s : Segment). s.index) (find (λ s. level_eq s.level level) ss)

unfoldable pub get : Address → Level → Option ℕ
get a level = get_in a.segments level

unfoldable pub last_level : List Segment → Option Level
last_level [] = none
last_level (s ∷ []) = some s.level
last_level (s ∷ t ∷ ss) = last_level (t ∷ ss)

unfoldable pub depth : Address → Option Level
depth a = last_level a.segments

unfoldable pub satisfies : Address → Address → Bool
satisfies a pattern =
    all (λ wanted. option_eq ◌==◌ (get a wanted.level) (some wanted.index)) pattern.segments

-- The two indices at one level agree and neither is missing.
unfoldable pub agree : Address → Address → Level → Bool
agree a b level = elim (get a level) [
  | none ↦ false
  | some mine ↦ elim (get b level) [ none ↦ false | some theirs ↦ mine == theirs ]
]

unfoldable pub shared_in : Address → Address → List Level → ℕ
shared_in a b [] = 0
shared_in a b (l ∷ ls) = if agree a b l then suc (shared_in a b ls) else 0

unfoldable pub shared_prefix : Address → Address → ℕ
shared_prefix a b = shared_in a b levels

unfoldable pub stable_anchor : Address → Option Segment
stable_anchor a =
    find (λ s. is_instance_unique s.level && not (level_eq s.level space)) (reverse a.segments)

unfoldable pub display_segments : List Segment → Text
display_segments [] = []
display_segments (s ∷ ss) = letter s.level ∷ (decimal s.index ++ display_segments ss)

unfoldable pub display : Address → Text
unfolding display_segments
display a = display_segments a.segments

-- Whether the suffix begins at a level that the prefix covers.
unfoldable pub overlaps : Address → Address → Bool
overlaps prefix suffix = elim (head? suffix.segments) [
  | none ↦ false
  | some outermost ↦ elim (last_level prefix.segments) [
    | none ↦ false
    | some innermost ↦ leb (rank outermost.level) (rank innermost)
  ]
]

unfoldable pub outermost_name : Address → Text
outermost_name a = elim (head? a.segments) [ none ↦ [] | some s ↦ name s.level ]

unfoldable pub join : Address → Address → Result Address
join prefix suffix =
    if overlaps prefix suffix
    then err (
        invalid (
          codes "`"
          ++ (display suffix
              ++ (codes "` starts at `"
                  ++ (outermost_name suffix
                      ++ (codes "`, which `" ++ (display prefix ++ codes "` already covers")))))))
    else new (prefix.segments ++ suffix.segments)
