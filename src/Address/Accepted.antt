-- ===== src/Address/Accepted.antt =====
-- What `Address::parse` accepts: only the canonical print of a valid address.
use vvagent.Base.{
  ℕ, ◌+◌, ◌-◌, ◌*◌, ◌^◌, ◌≤◌, ◌<◌, ◌≡◌, ◌≢◌, refl, sym, ◌∙◌, ◌⊎◌, inl, inr, List, [], ◌∷◌, ◌++◌,
  append_assoc, append-nil, some, arith, Text, ltb, all-append, Bool-cases, is_ascii_digit, len,
}
use vvagent.Error.{ok, >>=-eq-ok}
use vvagent.Address.Decimal.{
  decimal, value, parse_u32, Digits, decimal_small, decimal-value-Canonical,
}
use vvagent.Address.Defs.{
  Level, letter, from_letter, level_of, Segment, Address, segment, read, parse, display,
  display_segments, max_address_bytes,
}
use vvagent.Address.Order.{Fits, IsValid, new_iff}
use vvagent.Address.RoundTrip.{read_digit, read_break, read_end}

parse_u32_sound : (ds : Text) (n : ℕ) → parse_u32 ds ≡ some n → (n ≡ value 0 ds) × (n < 2 ^ 32)
unfolding parse_u32
parse_u32_sound ds n h = ground arith

-- A text of digits that has no leading zero, or is a lone zero, is the print of its value.
decimal-value-Digits :
    (d : ℕ) (ds : Text)
    → Digits (d ∷ ds)
    → (ds ≡ []) ⊎ (d ≢ b'0')
    → decimal (value 0 (d ∷ ds)) ≡ d ∷ ds
unfolding value is_ascii_digit
decimal-value-Digits d ds h (inl e) =
    let low : b'0' ≤ d = ground arith in
    let back : b'0' + (d - b'0') ≡ d = omega arith in
    let start : 0 * 10 + (d - b'0') ≡ d - b'0' = omega arith in
    rw (e, start) (decimal_small (d - b'0') (ground arith) ∙ rw back)
decimal-value-Digits d ds h (inr ne) = decimal-value-Canonical (d ∷ ds) ne h

segment_sound :
    (c : ℕ) (l : Level) (ds : Text) (s : Segment)
    → Digits ds
    → segment c l ds ≡ ok s
    → (s.level ≡ l) × (s.index < 2 ^ 32) × (decimal s.index ≡ ds)
unfolding segment
segment_sound c l [] s d h = cc
segment_sound c l (x ∷ []) s d h =
    ground (arith, parse_u32_sound (x ∷ []) s.index, decimal-value-Digits x [] d (inl refl))
segment_sound c l (x ∷ y ∷ ds) s d h = ground (
  arith,
  parse_u32_sound (x ∷ y ∷ ds) s.index,
  λ (ne : x ≢ b'0'). decimal-value-Digits x (y ∷ ds) d (inr ne),
)

level_of_sound : (c : ℕ) (l : Level) → level_of c ≡ ok l → c ≡ letter l
unfolding level_of from_letter
level_of_sound c l h = ground arith

display_segments-append :
    (ss ts : List Segment)
    → display_segments (ss ++ ts) ≡ display_segments ss ++ display_segments ts
unfolding display_segments
display_segments-append [] ts = refl
display_segments-append (s ∷ ss) ts = rw (display_segments-append ss ts, append_assoc)

Fits-append : (ss ts : List Segment) → Fits ss → Fits ts → Fits (ss ++ ts)
Fits-append [] ts h k = k
Fits-append (s ∷ ss) ts h k = (h.0, Fits-append ss ts h.1 k)

display_segments-one :
    (c : ℕ) (l : Level) (ds : Text) (s : Segment)
    → c ≡ letter l
    → s.level ≡ l
    → decimal s.index ≡ ds
    → display_segments (s ∷ []) ≡ c ∷ ds
unfolding display_segments
display_segments-one c l ds s e k h = rw append-nil (cc)

read_sound :
    (c : ℕ) (l : Level) (ds : Text) (done : List Segment) (rest : Text) (a : Address)
    → c ≡ letter l
    → Digits ds
    → Fits done
    → read c l ds done rest ≡ ok a
    → IsValid a × (display_segments a.segments ≡ display_segments done ++ c ∷ (ds ++ rest))
read_sound c l ds done [] a e d f h =
    let (s, hs, hn) = >>=-eq-ok (segment c l ds) _ (sym (read_end c l ds done) ∙ h) in
    let (level, fits, print) = segment_sound c l ds s d hs in
    let (same, ordered) = (new_iff (done ++ s ∷ []) a).0 hn in
    (
      record { ordered = rw same ordered; fits = rw same (Fits-append done (s ∷ []) f (fits, tt)) },
      rw (
        same,
        display_segments-append done (s ∷ []),
        append-nil,
        display_segments-one c l ds s e level print,
      ),
    )
read_sound c l ds done (x ∷ rest) a e d f h = elim (Bool-cases (is_ascii_digit x)) [
  | inl digit ↦
      let (valid, print) =
        read_sound c l (ds ++ x ∷ []) done rest a e
          (all-append is_ascii_digit ds (x ∷ []) d (rw digit)) f
          (sym (read_digit c l ds done x rest digit) ∙ h) in
      (valid, rw (print, append_assoc))
  | inr other ↦
      let (s, hs, h') =
        >>=-eq-ok (segment c l ds) _ (sym (read_break c l ds done x rest other) ∙ h) in
      let (next, hl, h'') = >>=-eq-ok (level_of x) _ h' in
      let (level, fits, print) = segment_sound c l ds s d hs in
      let (valid, printed) =
        read_sound x next [] (done ++ s ∷ []) rest a (level_of_sound x next hl) refl
          (Fits-append done (s ∷ []) f (fits, tt)) h'' in
      (
        valid,
        rw (
          printed,
          display_segments-append done (s ∷ []),
          display_segments-one c l ds s e level print,
          append_assoc,
        ),
      )
]

-- Whatever text is accepted is the print of the result, and the result is a valid address: it has
-- positive 32-bit indices at levels in strict containment order.
pub parse_sound : (s : Text) (a : Address) → parse s ≡ ok a → IsValid a × (display a ≡ s)
unfolding parse display
parse_sound [] a h = cc
parse_sound (c ∷ s) a h = elim (Bool-cases (ltb max_address_bytes (len (c ∷ s)))) [
  | inl long ↦ cc (rw long at h)
  | inr short ↦
      let (l, hl, hr) = >>=-eq-ok (level_of c) _ (rw short at h) in
      read_sound c l [] [] s a (level_of_sound c l hl) refl tt hr
]
