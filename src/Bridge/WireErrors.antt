-- ===== src/Bridge/WireErrors.antt =====
-- An error of this host always fits the wire.
use vvagent.Base.{
  inl, inr, ℕ, zero, suc, ◌-◌, ◌≤◌, ◌≡◌, refl, ap, Bool, true, false, not, List, [], ◌∷◌, arith,
  Text, codes, bytes, utf8, len, length, length-append, length-take, length-keep-le, ltb, leb, any,
  keep, take, is_control, In, here, there, In-keep, Bool-cases,
}
use vvagent.Error.{MeshError, Result, ok, err, refuse_if, >>-eq-ok, max_ambiguous_candidates}
use vvagent.Bridge.Frame.{
  bounded_text, cut, clean_message, from_mesh, bounded_candidates, validate_error, into_mesh, is_ok,
  max_error_message_bytes, max_display_bytes,
}

len-cut : (n : ℕ) (s : Text) → len (cut n s) ≤ n
unfolding len cut bytes
len-cut n [] = omega arith
len-cut n (c ∷ s) = elim (Bool-cases (leb (length (utf8 c)) n)) [
  | inl fits ↦ rw fits (
      ground (
        arith,
        length-append (utf8 c) (bytes (cut (n - length (utf8 c)) s)),
        len-cut (n - length (utf8 c)) s,
      ))
  | inr over ↦ rw over (omega arith)
]

cut-plain : (n : ℕ) (s : Text) → any is_control s ≡ false → any is_control (cut n s) ≡ false
unfolding cut
cut-plain n [] h = refl
cut-plain n (c ∷ s) h = ground (arith, cut-plain (n - length (utf8 c)) s)

keep-plain : (s : Text) → any is_control (keep (λ c. not (is_control c)) s) ≡ false
keep-plain [] = refl
keep-plain (c ∷ s) = ground (arith, keep-plain s)

bounded_candidates_of :
    (cs : List Text)
    → ((c : Text) → In c cs → bounded_text c max_display_bytes (codes "a candidate") ≡ ok tt)
    → bounded_candidates cs ≡ ok tt
unfolding bounded_candidates
bounded_candidates_of [] h = refl
bounded_candidates_of (c ∷ cs) h = rw (h c here) (bounded_candidates_of cs (λ a m. h a (there m)))

is_ok→≡ : (r : Result (Unit {0})) → is_ok r ≡ true → r ≡ ok tt
is_ok→≡ (ok u) h = refl
is_ok→≡ (err e) h = cc

clean_message-short : (m : Text) → len (clean_message m) ≤ max_error_message_bytes
unfolding clean_message
clean_message-short m =
    let kept = keep (λ c. not (is_control c)) m in
    ground (arith, len-cut max_error_message_bytes kept)

clean_message-plain : (m : Text) → any is_control (clean_message m) ≡ false
unfolding clean_message
clean_message-plain m =
    let kept = keep (λ c. not (is_control c)) m in
    ground (arith, cut-plain max_error_message_bytes kept (keep-plain m), keep-plain m)

clean_message-bounded :
    (m what : Text) → bounded_text (clean_message m) max_error_message_bytes what ≡ ok tt
unfolding bounded_text
clean_message-bounded m what = ground (arith, clean_message-short m, clean_message-plain m)

take_all : (n : ℕ) (cs : List Text) → length cs ≤ n → take n cs ≡ cs
take_all zero [] h = refl
take_all zero (c ∷ cs) h = absurd (omega arith)
take_all (suc n) [] h = refl
take_all (suc n) (c ∷ cs) h = ap (◌∷◌ c) (take_all n cs (omega arith))

few :
    (p : Text → Bool) (cs : List Text)
    → length (keep p (take max_ambiguous_candidates cs)) ≤ max_ambiguous_candidates
few p cs = omega (
  arith,
  length-keep-le p (take max_ambiguous_candidates cs),
  length-take max_ambiguous_candidates cs,
)

-- `WireError::from_mesh` makes of every error, however long or dirty, one that the wire accepts; it
-- keeps the code, and `into_mesh` on the far side changes neither the message nor the candidates.
pub validate-from_mesh :
    (e : MeshError)
    → (validate_error (from_mesh e) ≡ ok tt)
      × ((into_mesh (from_mesh e)).code ≡ e.code)
      × ((into_mesh (from_mesh e)).message ≡ (from_mesh e).message)
      × ((into_mesh (from_mesh e)).candidates ≡ (from_mesh e).candidates)
unfolding validate_error from_mesh into_mesh
validate-from_mesh e =
    let ok_name : Text → Bool =
      λ name. is_ok (bounded_text name max_display_bytes (codes "a candidate")) in
    let fine =
      bounded_candidates_of (from_mesh e).candidates
        (λ c m. is_ok→≡ _ (In-keep ok_name c (take max_ambiguous_candidates e.candidates) m).1) in
    let count = few ok_name e.candidates in
    (
      (>>-eq-ok
            (bounded_text (clean_message e.message) max_error_message_bytes
              (codes "an error message"))
            _ tt).1
          (
            clean_message-bounded e.message (codes "an error message"),
            (>>-eq-ok (refuse_if (ltb max_ambiguous_candidates (length (from_mesh e).candidates)) _)
                  _ tt).1
                (ground arith, fine),
          ),
      refl,
      refl,
      take_all max_ambiguous_candidates (from_mesh e).candidates count,
    )
