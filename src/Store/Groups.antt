-- ===== src/Store/Groups.antt =====
-- Groups: `set_group`, `delete_group`, `group_members`, `open_group_send`, `attach_to_group_send`
-- and `group_send_members`. The snapshot of a fan-out is kept as the ids that its text joins.
use vvagent.Base.{
  Bool, true, false, not, ◌&&◌, ◌||◌, List, [], ◌∷◌, ◌++◌, none, some, Text, codes, if◌then◌else◌,
  keep, any, find, map, text_eq, ltb, leb, length, is_some, option_eq,
}
use vvagent.Base.Sort.{sort_by, text_leb}
use vvagent.Error.{Result, ok, err, ◌>>=◌, new, not_found, io}
use vvagent.Identity.Alias
use vvagent.Identity.Alias.{Alias}
use vvagent.Identity.Opaque
use vvagent.Identity.Opaque.{Opaque, opaque_eq}
use vvagent.Store.Tables.{
  Store, Message, MemberRow, Caller, is_message, find_endpoint, load_message,
}
use vvagent.Store.Rows.{update}
use vvagent.Store.Queries.{principal_key}

abbrev pub in_group : Text → MemberRow → Bool
in_group name m = text_eq m.name name

abbrev pub member_of : Text → Opaque → MemberRow
member_of name id = record { name = name; endpoint_id = id }

-- The primary key of `group_member`: no endpoint twice.
unfoldable pub repeats : List Opaque → Bool
repeats [] = false
repeats (id ∷ ids) = any (opaque_eq id) ids || repeats ids

-- `REFERENCES endpoint(endpoint_id)`, with foreign keys on.
unfoldable pub all_known : Store → List Opaque → Bool
all_known s [] = true
all_known s (id ∷ ids) = is_some (find_endpoint s id) && all_known s ids

unfoldable pub set_group : Store → Alias → List Opaque → Result (Unit {0}) × Store
unfolding repeats all_known
set_group s name ids =
    if repeats ids
    then (err (new io (codes "sqlite: UNIQUE constraint failed: group_member")), s)
    else if not (all_known s ids)
    then (err (new io (codes "sqlite: FOREIGN KEY constraint failed")), s)
    else (
      ok tt,
      record s {
        groups =
            if any (text_eq (Alias.as_str name)) s.groups
            then s.groups
            else s.groups ++ Alias.as_str name ∷ [];
        members =
            keep (λ m. not (in_group (Alias.as_str name) m)) s.members
            ++ map (member_of (Alias.as_str name)) ids;
      },
    )

unfoldable pub delete_group : Store → Alias → Bool × Store
delete_group s name = (
  ltb 0 (length (keep (text_eq (Alias.as_str name)) s.groups)),
  record s {
    groups = keep (λ g. not (text_eq (Alias.as_str name) g)) s.groups;
    members = keep (λ m. not (in_group (Alias.as_str name) m)) s.members;
  },
)

-- `ORDER BY endpoint_id`
abbrev pub by_id : Opaque → Opaque → Bool
by_id a b = text_leb (Opaque.as_str a) (Opaque.as_str b)

unfoldable pub group_members : Store → Alias → Result (List Opaque)
group_members s name =
    if any (text_eq (Alias.as_str name)) s.groups
    then ok
        (sort_by by_id (map (λ m. m.endpoint_id) (keep (in_group (Alias.as_str name)) s.members)))
    else err (new not_found (codes "no such group"))

unfoldable pub open_group_send :
    Store → Alias → Caller → List Opaque → Opaque → Result Opaque × Store
open_group_send s name c ids fresh =
    if any (λ g. opaque_eq g.group_send_id fresh) s.group_sends
    then (err (new io (codes "sqlite: UNIQUE constraint failed: group_send.group_send_id")), s)
    else (
      ok fresh,
      record s {
        group_sends =
            s.group_sends
            ++ record {
              group_send_id = fresh;
              name = Alias.as_str name;
              sender = principal_key c.principal;
              members = ids;
            }
              ∷ [];
      },
    )

abbrev pub tie : Opaque → Message → Message
tie send m = record m { group_send_id = some send }

unfoldable pub attach_to_group_send : Store → Opaque → Opaque → Store
attach_to_group_send s id send = record s {
  messages = update (is_message id) (tie send) s.messages;
}

unfoldable pub group_send_members : Store → Opaque → Result (List Opaque)
group_send_members s send = elim (find (λ g. opaque_eq g.group_send_id send) s.group_sends) [
  | none ↦ err (new not_found (codes "no such group send"))
  | some g ↦ ok g.members
]

-- `ORDER BY name`, each with its members.
unfoldable pub list_each : Store → List Text → Result (List (Text × List Opaque))
unfolding group_members
list_each s [] = ok []
list_each s (name ∷ names) = group_members s (record { chars = name }) >>= λ ids.
    list_each s names >>= λ rest. ok ((name, ids) ∷ rest)

unfoldable pub list_groups : Store → Result (List (Text × List Opaque))
unfolding list_each
list_groups s = list_each s (sort_by text_leb s.groups)

unfoldable pub load_each : Store → List Message → Result (List Message)
load_each s [] = ok []
load_each s (m ∷ ms) =
    load_message s m.message_id >>= λ loaded. load_each s ms >>= λ rest. ok (loaded ∷ rest)

-- `WHERE group_send_id=?1 ORDER BY created_at`
unfoldable pub group_send_requests : Store → Opaque → Result (List Message)
unfolding load_each
group_send_requests s send = load_each s (
    sort_by (λ m n. leb m.created_at n.created_at)
      (keep (λ m. option_eq opaque_eq m.group_send_id (some send)) s.messages))
