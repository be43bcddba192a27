-- ===== src/Store/Examples/Sessions.antt =====
-- An agent that is bound, bound again by a new process, and unbound.
use vvagent.Base.{
  ◌≡◌, ◌≢◌, refl, [], ◌∷◌, none, some, arith, codes, bytes, text_eq, In, false, true,
}
use vvagent.Endpoint.{Locator}
use vvagent.Error.{ok, err, MeshError, new, not_authorized, claim_lost}
use vvagent.Identity.Alias
use vvagent.Identity.Alias.{Alias}
use vvagent.Identity.Opaque.{hex, hex_digit, opaque_eq}
use vvagent.Identity.RuntimeKind.{vvmux, kind_eq}
use vvagent.Store.Tables.{Store, Message, find_endpoint}
use vvagent.Store.Queries.{require_current_incarnation}
use vvagent.Store.Binding.{
  Binding, Bound, bind, bind_new, bind_again, existing_slot, authenticate, token_hash_of,
}
use vvagent.Store.Unbinding.{unbind, held_by}
use vvagent.Store.Rebinding.{agent_caller, authenticate-bind, bind-supersedes, bind-bind}
use vvagent.Store.Releasing.{unbind-releases}
use vvagent.Store.Examples.{id, worker_row, empty, checksum, empty-Keyed}
use vvagent.Store.Examples.Claims.{taken}

abbrev builder : Alias
builder = record { chars = codes "builder" }

abbrev place : Locator
place = record { kind = vvmux; runtime_instance_id = id 3; instance_name = none; address = none }

abbrev binding : Binding
binding = record { alias = some builder; provider = none; locator = place }

abbrev first_bound : Bound
first_bound = record {
  endpoint_id = id 22;
  incarnation_id = id 21;
  token = codes "01";
  rebound = false;
}

abbrev second_bound : Bound
second_bound = record {
  endpoint_id = id 22;
  incarnation_id = id 31;
  token = codes "02";
  rebound = true;
}

abbrev bound_once : Store
bound_once = (bind checksum empty 5 binding (some (1 ∷ [])) (id 21) (id 22)).1

first-bound : (bind checksum empty 5 binding (some (1 ∷ [])) (id 21) (id 22)).0 ≡ ok first_bound
unfolding bind bind_new bind_again existing_slot kind_eq find_endpoint opaque_eq hex hex_digit codes
    text_eq
first-bound = refl

second-bound :
    (bind checksum bound_once 6 binding (some (2 ∷ [])) (id 31) (id 32)).0 ≡ ok second_bound
unfolding bind bind_new bind_again existing_slot kind_eq find_endpoint opaque_eq hex hex_digit codes
    text_eq Alias.as_str
second-bound = refl

authenticate-bind_example :
    (authenticate checksum bound_once (id 22) (codes "01")
      ≡ ok (agent_caller (id 22) (id 21) (id 3)))
    × (bytes (token_hash_of checksum (codes "01")) ≢ bytes (token_hash_of checksum (codes "02"))
        → authenticate checksum bound_once (id 22) (codes "02")
          ≡ err (new not_authorized (codes "endpoint token does not match")))
authenticate-bind_example =
    authenticate-bind checksum empty 5 binding (some (1 ∷ [])) (id 21) (id 22) first_bound
      (codes "02") empty-Keyed first-bound

processes-differ : id 2 ≢ id 21
processes-differ e = ground arith

bind-supersedes_example :
    (require_current_incarnation bound_once (id 22) (id 21) ≡ ok tt)
    × ((e : MeshError) × (require_current_incarnation bound_once (id 22) (id 2) ≡ err e)
        × (e.code ≡ claim_lost))
bind-supersedes_example =
    bind-supersedes checksum empty 5 binding (some (1 ∷ [])) (id 21) (id 22) first_bound (id 2)
      empty-Keyed processes-differ first-bound

bind-bind_example : (id 22 ≡ id 22) × (true ≡ true)
bind-bind_example =
    bind-bind checksum empty 5 binding binding builder (some (1 ∷ [])) (id 21) (id 22) first_bound
      second_bound 6 (some (2 ∷ [])) (id 31) (id 32) empty-Keyed refl refl refl first-bound
      second-bound

abbrev busy : Store
busy = record empty { messages = taken ∷ [] }

worker-found : find_endpoint busy (id 1) ≡ some worker_row
unfolding find_endpoint opaque_eq text_eq
worker-found = refl

unbind-releases_example :
    (authenticate checksum (unbind busy 9 (id 1) (id 2)) (id 1) (codes "01")
      ≡ err (new not_authorized (codes "that endpoint has no live binding")))
    × ((m : Message)
        → In m (unbind busy 9 (id 1) (id 2)).messages
        → m.to_endpoint ≡ id 1
        → held_by (id 2) m ≡ false)
unbind-releases_example =
    unbind-releases checksum busy 9 (id 1) (id 2) worker_row (codes "01") worker-found refl
