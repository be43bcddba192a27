-- ===== src/Store/Releasing.antt =====
-- What `unbind` takes from a process: its binding, its token and its claims.
use vvagent.Base.{
  ℕ, ◌≡◌, refl, ap, ◌∙◌, ◌⊎◌, inl, inr, Bool, true, false, ◌&&◌, ◌==◌, List, [], ◌∷◌, none, some,
  arith, Text, codes, if◌then◌else◌, length, keep, In, In-cons, Bool-cases, find-In,
}
use vvagent.Error.{err, new, not_authorized}
use vvagent.Identity.Opaque.{Opaque, opaque_eq, opaque_eq_refl}
use vvagent.Message.State.{queued}
use vvagent.Store.Tables.{Store, EndpointRow, Message, audit, find_endpoint, is_endpoint}
use vvagent.Store.Rows.{update, changed, find-update, In-update}
use vvagent.Store.Receive.{release}
use vvagent.Store.Binding.{authenticate, lifecycle_audit}
use vvagent.Store.Unbinding.{unbind, bound_as, go_offline, held_by}

keep-some {ℓ} :
    {A : Type ℓ} (p : A → Bool) (x : A) (xs : List A)
    → In x xs
    → p x ≡ true
    → (length (keep p xs) == 0) ≡ false
keep-some p x [] i h = elim i [ ]
keep-some p x (y ∷ ys) i h = elim (Bool-cases (p y)) [
  | inl e ↦ rw e (ground arith)
  | inr e ↦ elim (In-cons i) [ inl q ↦ cc (h, ap p q, e) | inr i' ↦ rw e (keep-some p x ys i' h) ]
]

-- After claims go back on the queue, a message was not among them or is held by no one.
pub In-released :
    (mine : Message → Bool) (m : Message) (ms : List Message)
    → In m (update mine (release queued) ms)
    → (mine m ≡ false) ⊎ ((owner : Opaque) → held_by owner m ≡ false)
In-released mine m ms i =
    let (x, k, q) = In-update mine (release queued) m ms i in
    elim (Bool-cases (mine x)) [
      | inl hit ↦ inr (λ owner.
          ap (held_by owner) (q ∙ ap (λ (b : Bool). if b then release queued x else x) hit))
      | inr miss ↦
          inl (ap mine (q ∙ ap (λ (b : Bool). if b then release queued x else x) miss) ∙ miss)
    ]

authenticate-unbound :
    (sha256 : List ℕ → List ℕ) (t : Store) (id : Opaque) (e : EndpointRow) (token : Text)
    → find_endpoint t id ≡ some e
    → e.token_hash ≡ none
    → authenticate sha256 t id token
      ≡ err (new not_authorized (codes "that endpoint has no live binding"))
unfolding authenticate
authenticate-unbound sha256 t id e token found free =
    rw (found, authenticate) (rw (free, authenticate) refl)

-- When the process that an endpoint is bound to unbinds it, no token authenticates any more, and no
-- message to it stays claimed by that process.
pub unbind-releases :
    (sha256 : List ℕ → List ℕ) (s : Store) (now : ℕ) (id incarnation : Opaque) (e : EndpointRow)
    (token : Text)
    → find_endpoint s id ≡ some e
    → e.incarnation_id ≡ some incarnation
    → (authenticate sha256 (unbind s now id incarnation) id token
        ≡ err (new not_authorized (codes "that endpoint has no live binding")))
      × ((m : Message)
          → In m (unbind s now id incarnation).messages
          → m.to_endpoint ≡ id
          → held_by incarnation m ≡ false)
unfolding unbind find_endpoint
unbind-releases sha256 s now id incarnation e token found bound =
    let (i, same) = find-In (is_endpoint id) s.endpoints e found in
    let mine : bound_as id incarnation e ≡ true = rw same (rw bound (opaque_eq_refl incarnation)) in
    let live : (changed (bound_as id incarnation) s.endpoints == 0) ≡ false =
      keep-some (bound_as id incarnation) e s.endpoints i mine in
    let gone =
      find-update (is_endpoint id) (bound_as id incarnation) go_offline e s.endpoints (λ x. refl)
        found
      ∙ ap (λ (b : Bool). some (if b then go_offline e else e)) mine in
    let left : find_endpoint (unbind s now id incarnation) id ≡ some (go_offline e) =
      rw (live, unbind) gone in
    (
      authenticate-unbound sha256 (unbind s now id incarnation) id (go_offline e) token left refl,
      λ m j to.
          elim (In-released (λ n. opaque_eq n.to_endpoint id && held_by incarnation n) m s.messages
            (rw (live, unbind) at j)) [
              | inl miss ↦
                  let here' : opaque_eq m.to_endpoint id ≡ true =
                    ap (λ (a : Opaque). opaque_eq a id) to ∙ opaque_eq_refl id in
                  ground (arith, here')
              | inr free ↦ free incarnation
            ],
    )

-- An unbind by any other incarnation changes nothing but the audit trail.
pub unbind-stale :
    (s : Store) (now : ℕ) (id incarnation : Opaque)
    → changed (bound_as id incarnation) s.endpoints ≡ 0
    → unbind s now id incarnation
      ≡ audit s (lifecycle_audit now id (codes "unbind") (codes "stale_incarnation"))
unfolding unbind
unbind-stale s now id incarnation h = rw h refl
