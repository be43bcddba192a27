-- ===== src/Bridge/Hello.antt =====
-- `Hello`, the first thing each side sends, and whether the other end is acceptable.
use vvagent.Base.{
  ℕ, ◌≡◌, ◌≢◌, refl, sym, ap, subst, ◌↔◌, inl, inr, Bool, true, false, not, ◌||◌, List, [], ◌∷◌,
  ◌++◌, Option, none, some, arith, Text, codes, bytes, len, length, ltb, ◌==◌, any, all, find,
  find-none, is_empty, is_ascii_lowercase, text_eq, text_eq→≡, text_eq_refl, In, here, there,
  In-cons, Bool-cases, or-eq-true,
}
use vvagent.Error.{Result, ok, err, ◌>>=◌, ◌>>◌, invalid, refuse_if, check_last, check_then}
use vvagent.Identity.Opaque.{Opaque, opaque_eq, opaque_eq→≡, opaque_eq_refl}
use vvagent.Identity.PeerLabel
use vvagent.Identity.PeerLabel.{PeerLabel}

abbrev pub max_understood : ℕ
max_understood = 32

abbrev pub max_frame_type_bytes : ℕ
max_frame_type_bytes = 32

pub data Role : Type 0 where
  dial serve : Role

abbrev pub role_eq : Role → Role → Bool
role_eq dial dial = true
role_eq serve serve = true
role_eq _ _ = false

pub record Hello : Type 0 where
  pub host_id : Opaque
  pub role : Role
  pub understands : List Text
  pub name : Option Text

unfoldable pub frame_types : List Text
frame_types =
    codes "resolve"
    ∷ codes "resolved"
    ∷ codes "unresolved"
    ∷ codes "deliver"
    ∷ codes "accepted"
    ∷ codes "refused"
    ∷ codes "cancel"
    ∷ codes "cancel_state"
    ∷ codes "ping"
    ∷ codes "pong"
    ∷ []

unfoldable pub hello_new : Opaque → Role → Hello
hello_new host role = record { host_id = host; role = role; understands = frame_types; name = none }

unfoldable pub type_byte : ℕ → Bool
type_byte b = is_ascii_lowercase b || b == b'_'

unfoldable pub validate_names : List Text → Result (Unit {0})
unfolding type_byte
validate_names [] = ok tt
validate_names (n ∷ ns) = do
  refuse_if (is_empty n || ltb max_frame_type_bytes (len n) || not (all type_byte (bytes n)))
      (codes "a frame type name is 1..=32 lowercase letters or '_'")
  validate_names ns

unfoldable pub validate_name : Option Text → Result (Unit {0})
validate_name none = ok tt
validate_name (some n) = PeerLabel.parse n >>= λ label. ok tt

unfoldable pub validate_hello : Hello → Result (Unit {0})
unfolding validate_names validate_name
validate_hello h = do
  refuse_if (ltb max_understood (length h.understands))
      (codes "a hello lists at most 32 frame types")
  validate_names h.understands
  validate_name h.name

abbrev pub role_name : Role → Text
role_name dial = codes "dial"
role_name serve = codes "serve"

-- The first v1 frame type that the peer does not list.
unfoldable pub missing : List Text → Option Text
missing theirs = find (λ name. not (any (λ t. text_eq t name) theirs)) frame_types

unfoldable pub accept_missing : Option Text → Result (Unit {0})
accept_missing none = ok tt
accept_missing (some name) = err (
    invalid
      (codes "the peer does not understand `" ++ (name ++ codes "`, which VVAM-BRIDGE/1 requires")))

unfoldable pub accept_peer : Hello → Hello → Result (Unit {0})
unfolding accept_missing
accept_peer ours theirs = do
  refuse_if (role_eq theirs.role ours.role)
      (codes "both ends of the bridge claim to " ++ role_name ours.role)
  refuse_if (opaque_eq theirs.host_id ours.host_id)
      (codes "the bridge reached this same store; a host cannot be its own peer")
  accept_missing (missing theirs.understands)

listed_iff :
    (theirs : List Text) (name : Text) → (any (λ t. text_eq t name) theirs ≡ true) ↔ In name theirs
listed_iff [] name = ((λ h. cc), (λ m. elim m [ ]))
listed_iff (t ∷ ts) name = (
  λ h. elim (or-eq-true (text_eq t name) (any (λ t. text_eq t name) ts) h) [
    | inl e ↦ subst (λ y. In y (t ∷ ts)) (text_eq→≡ t name e) here
    | inr e ↦ there ((listed_iff ts name).0 e)
  ],
  λ m. elim (In-cons m) [
    | inl e ↦ rw e (ground (arith, text_eq_refl t))
    | inr m' ↦ ground (arith, (listed_iff ts name).1 m')
  ],
)

role_iff : (a b : Role) → (role_eq a b ≡ false) ↔ (a ≢ b)
role_iff a b = ((λ h e. ground arith), (λ h. ground arith))

host_iff : (a b : Opaque) → (opaque_eq a b ≡ false) ↔ (a ≢ b)
host_iff a b = (
  λ h e. cc (h, ap (opaque_eq a) (sym e), opaque_eq_refl a),
  λ h. elim (Bool-cases (opaque_eq a b)) [ inl e ↦ absurd (h (opaque_eq→≡ a b e)) | inr e ↦ e ],
)

find-none_of {ℓ} :
    {A : Type ℓ} (p : A → Bool) (xs : List A) → ((a : A) → In a xs → p a ≡ false) → find p xs ≡ none
find-none_of p [] h = refl
find-none_of p (x ∷ xs) h = rw (h x here) (find-none_of p xs (λ a m. h a (there m)))

missing_iff :
    (theirs : List Text)
    → (accept_missing (missing theirs) ≡ ok tt)
      ↔ ((name : Text) → In name frame_types → In name theirs)
unfolding accept_missing missing
missing_iff theirs = (
  λ h name m.
      let lost = find-none _ frame_types (none_missing (missing theirs) refl h) name m in
      elim (Bool-cases (any (λ t. text_eq t name) theirs)) [
        | inl e ↦ (listed_iff theirs name).0 e
        | inr e ↦ cc (rw e at lost)
      ],
  λ h. rw (
      find-none_of (λ name. not (any (λ t. text_eq t name) theirs)) frame_types
        (λ name m. rw ((listed_iff theirs name).1 (h name m)))),
)
  where
    none_missing :
        (o : Option Text) → missing theirs ≡ o → accept_missing o ≡ ok tt → missing theirs ≡ none
    none_missing none q h = q
    none_missing (some n) q h = cc

-- The other end is accepted exactly when it plays the other role, is another store, and lists every
-- frame type of version 1.
pub accept_peer_iff :
    (ours theirs : Hello)
    → (accept_peer ours theirs ≡ ok tt) ↔ (
        (theirs.role ≢ ours.role)
        × ((theirs.host_id ≢ ours.host_id)
            × ((name : Text) → In name frame_types → In name theirs.understands)))
unfolding accept_peer
accept_peer_iff ours theirs =
    check_then (refuse_if _ _) _ (check_last _ _ (role_iff theirs.role ours.role)) (
      check_then (refuse_if _ _) _ (check_last _ _ (host_iff theirs.host_id ours.host_id))
        (missing_iff theirs.understands))

-- Two hellos of version 1, with opposite roles and different stores, accept one another.
pub accept_peer-hello_new :
    (ours theirs : Opaque)
    → ours ≢ theirs
    → (accept_peer (hello_new ours dial) (hello_new theirs serve) ≡ ok tt)
      × (accept_peer (hello_new theirs serve) (hello_new ours dial) ≡ ok tt)
unfolding hello_new
accept_peer-hello_new ours theirs h = (
  (accept_peer_iff _ _).1 ((λ e. cc), (λ e. h (sym e), λ name m. m)),
  (accept_peer_iff _ _).1 ((λ e. cc), (λ e. h e, λ name m. m)),
)
