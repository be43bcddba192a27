-- ===== src/Store/Branches.antt =====
-- A property of what an operation returns and leaves holds if it holds in each branch.
use vvagent.Base.{◌≡◌, refl, Bool, true, false, Option, none, some, if◌then◌else◌}
use vvagent.Error.{Result, ok, err, MeshError}
use vvagent.Store.Tables.{Store}
use vvagent.Store.Receive.{finish_tx}

pub record Sat {ℓ} {B : Type ℓ} (P : B × Store → Type 0) (x : B × Store) : Type 0 where
  pub holds : P x

-- The store that an operation leaves has the property.
abbrev pub After {ℓ} : {B : Type ℓ} → (Store → Type 0) → B × Store → Type 0
After P x = Sat (λ y. P y.1) x

module _ {ℓ} {B : Type ℓ} {P : B × Store → Type 0} where
  pub on_if :
      (b : Bool) {x y : B × Store}
      → (b ≡ true → Sat P x)
      → (b ≡ false → Sat P y)
      → Sat P (if b then x else y)
  on_if true hx hy = hx refl
  on_if false hx hy = hy refl

  pub on_result {κ} :
      {A : Type κ} (r : Result A) (s : Store) (g : MeshError → B) (f : A → B × Store)
      → ((e : MeshError) → P (g e, s))
      → ((a : A) → r ≡ ok a → Sat P (f a))
      → Sat {B = B} P (elim r [ err e ↦ (g e, s) | ok a ↦ f a ])
  on_result (err e) s g f hs hf = record { holds = hs e }
  on_result (ok a) s g f hs hf = hf a refl

  pub on_option {κ} :
      {A : Type κ} (o : Option A) (x : B × Store) (f : A → B × Store)
      → (o ≡ none → Sat P x)
      → ((a : A) → o ≡ some a → Sat P (f a))
      → Sat {B = B} P (elim o [ some a ↦ f a | none ↦ x ])
  on_option none x f hx hf = hx refl
  on_option (some a) x f hx hf = hf a refl

pub on_finish {ℓ} :
    {A : Type ℓ} (P : Store → Type 0) (s : Store) (r : Result A × Store)
    → P s
    → After P r
    → After P (finish_tx s r)
on_finish P s (err e, after) hs hr = record { holds = hs }
on_finish P s (ok a, after) hs hr = record { holds = hr.holds }
