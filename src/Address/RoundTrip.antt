-- ===== src/Address/RoundTrip.antt =====
-- `Address::parse` and `Display` are inverse: what is printed is read back, and what is accepted is
-- the print of the result.
use vvagent.Base.{
  ℕ, ◌*◌, ◌^◌, ◌≤◌, ◌<◌, ◌≡◌, ◌≢◌, refl, ◌∙◌, Bool, true, false, List, [], ◌∷◌, ◌++◌, append_assoc,
  append-nil, Option, none, some, arith, Text, ltb, length, length-append, all, all-append,
  and-eq-true, is_ascii_digit, bytes_ascii, len,
}
use vvagent.Error.{ok, ◌>>=◌}
use vvagent.Address.Decimal.{
  decimal, parse_u32, Digits, Canonical, decimal-Digits, decimal-Canonical, parse_u32-decimal,
  length-decimal,
}
use vvagent.Address.Defs.{
  Level, letter, from_letter, level_of, Segment, Address, segment, read, parse, display,
  display_segments, new, max_address_bytes, space,
}
use vvagent.Address.Order.{Ordered, Fits, IsValid, new_iff, length-le-five}

segment-decimal :
    (c : ℕ) (l : Level) (n : ℕ)
    → 0 < n
    → n < 2 ^ 32
    → segment c l (decimal n) ≡ ok (record { level = l; index = n })
segment-decimal c l n pos fits = go (decimal n) (decimal-Canonical n pos) (parse_u32-decimal n fits)
  where
    go :
        (ds : Text)
        → Canonical ds
        → parse_u32 ds ≡ some n
        → segment c l ds ≡ ok (record { level = l; index = n })
    go [] h e = absurd h
    go (d ∷ ds) h e = unfold segment in ground arith

level_of-letter : (l : Level) → level_of (letter l) ≡ ok l
unfolding level_of from_letter
level_of-letter space = refl
level_of-letter _ = refl

letter-not_digit : (l : Level) → is_ascii_digit (letter l) ≡ false
unfolding is_ascii_digit
letter-not_digit space = refl
letter-not_digit _ = refl

pub read_digit :
    (c : ℕ) (l : Level) (ds : Text) (done : List Segment) (d : ℕ) (rest : Text)
    → is_ascii_digit d ≡ true
    → read c l ds done (d ∷ rest) ≡ read c l (ds ++ d ∷ []) done rest
unfolding read
read_digit c l ds done d rest h = ground arith

pub read_end :
    (c : ℕ) (l : Level) (ds : Text) (done : List Segment)
    → read c l ds done [] ≡ (segment c l ds >>= λ s. new (done ++ s ∷ []))
unfolding read
read_end c l ds done = refl

pub read_break :
    (c : ℕ) (l : Level) (ds : Text) (done : List Segment) (d : ℕ) (rest : Text)
    → is_ascii_digit d ≡ false
    → read c l ds done (d ∷ rest)
      ≡ (segment c l ds >>= λ s. level_of d >>= λ next. read d next [] (done ++ s ∷ []) rest)
unfolding read
read_break c l ds done d rest h = ground arith

read-Digits :
    (c : ℕ) (l : Level) (ds : Text) (done : List Segment) (xs rest : Text)
    → Digits xs
    → read c l ds done (xs ++ rest) ≡ read c l (ds ++ xs) done rest
read-Digits c l ds done [] rest h = rw append-nil
read-Digits c l ds done (x ∷ xs) rest h =
    let (hx, hs) = and-eq-true (is_ascii_digit x) (all is_ascii_digit xs) h in
    rw (
      read_digit c l ds done x (xs ++ rest) hx,
      read-Digits c l (ds ++ x ∷ []) done xs rest hs,
      append_assoc,
    )

read-letter :
    (c : ℕ) (l : Level) (ds : Text) (done : List Segment) (s : Segment) (next : Level) (rest : Text)
    → segment c l ds ≡ ok s
    → read c l ds done (letter next ∷ rest) ≡ read (letter next) next [] (done ++ s ∷ []) rest
read-letter c l ds done s next rest h =
    rw (read_break c l ds done (letter next) rest (letter-not_digit next), h, level_of-letter next)

read-display :
    (done : List Segment) (s : Segment) (ss : List Segment) (last : Option Level)
    → Ordered last (s ∷ ss)
    → Fits (s ∷ ss)
    → read (letter s.level) s.level (decimal s.index) done (display_segments ss)
      ≡ new (done ++ s ∷ ss)
unfolding display_segments
read-display done s [] last o f =
    unfold read in rw (segment-decimal (letter s.level) s.level s.index o.0 f.0)
read-display done s (t ∷ ss) last o f =
    read-letter (letter s.level) s.level (decimal s.index) done s t.level _
      (segment-decimal (letter s.level) s.level s.index o.0 f.0)
    ∙ read-Digits (letter t.level) t.level [] (done ++ s ∷ []) (decimal t.index)
        (display_segments ss) (decimal-Digits t.index)
    ∙ read-display (done ++ s ∷ []) t ss (some s.level) o.2 f.1
    ∙ rw append_assoc

abbrev is_ascii : Text → Bool
is_ascii = all (λ c. ltb c 0x80)

Digits-ascii : (s : Text) → Digits s → is_ascii s ≡ true
unfolding is_ascii_digit
Digits-ascii [] h = refl
Digits-ascii (c ∷ s) h = ground (arith, Digits-ascii s)

display_ascii : (ss : List Segment) → is_ascii (display_segments ss) ≡ true
unfolding display_segments
display_ascii [] = refl
display_ascii (s ∷ ss) = ground (
  arith,
  all-append (λ c. ltb c 0x80) (decimal s.index) (display_segments ss)
      (Digits-ascii (decimal s.index) (decimal-Digits s.index)) (display_ascii ss),
)

length-display : (ss : List Segment) → Fits ss → length (display_segments ss) ≤ 11 * length ss
unfolding display_segments
length-display [] f = omega arith
length-display (s ∷ ss) f = omega (
  arith,
  length-append (decimal s.index) (display_segments ss),
  length-decimal s.index f.0,
  length-display ss f.1,
)

-- A valid address prints to at most 55 bytes, so the limit of 64 refuses no rendering.
pub len-display : (a : Address) → IsValid a → len (display a) ≤ 55
unfolding len display
len-display a v =
    rw (bytes_ascii (display_segments a.segments) (display_ascii a.segments))
      (omega (arith, length-display a.segments v.fits, length-le-five a.segments v.ordered))

parse-letter :
    (l : Level) (rest : Text)
    → len (letter l ∷ rest) ≤ max_address_bytes
    → parse (letter l ∷ rest) ≡ read (letter l) l [] [] rest
unfolding parse
parse-letter l rest h = ground (arith, level_of-letter l)

parse_segments :
    (s : Segment) (ss : List Segment)
    → Ordered none (s ∷ ss)
    → Fits (s ∷ ss)
    → len (display (record { segments = s ∷ ss })) ≤ 55
    → parse (display (record { segments = s ∷ ss })) ≡ ok (record { segments = s ∷ ss })
unfolding display display_segments
parse_segments s ss o f short =
    parse-letter s.level _ (omega arith)
    ∙ read-Digits (letter s.level) s.level [] [] (decimal s.index) (display_segments ss)
        (decimal-Digits s.index)
    ∙ read-display [] s ss none o f
    ∙ (new_iff (s ∷ ss) (record { segments = s ∷ ss })).1 (refl, o)

-- Every valid address with at least one segment is read back from its print.
pub parse-display : (a : Address) → IsValid a → a.segments ≢ [] → parse (display a) ≡ ok a
parse-display a v = go a.segments v.ordered v.fits (len-display a v)
  where
    go :
        (ss : List Segment)
        → Ordered none ss
        → Fits ss
        → len (display (record { segments = ss })) ≤ 55
        → ss ≢ []
        → parse (display (record { segments = ss })) ≡ ok (record { segments = ss })
    go [] o f short h = absurd (h refl)
    go (s ∷ ss) o f short h = parse_segments s ss o f short
