-- ===== src/Store/Peers/Resolutions.antt =====
-- `request_resolution`, `pending_resolutions`, `answer_resolution` and `take_resolution`: questions
-- that only a peer can answer, left in the store for its bridge.
use vvagent.Base.{
  ℕ, ◌+◌, Bool, not, ◌&&◌, ◌||◌, ◌==◌, List, [], ◌∷◌, ◌++◌, Option, none, some, Text, codes,
  if◌then◌else◌, find, keep, any, is_empty, is_none, ltb, leb, len, length, is_control,
}
use vvagent.Error.{Result, ok, err, ◌>>=◌, new, refuse_if, ◌>>◌, rate_limited, peer_unreachable}
use vvagent.Identity.Opaque.{Opaque, opaque_eq}
use vvagent.Selector.Remote.{max_selector_bytes}
use vvagent.Store.Tables.{Store, ResolutionRow, Answer}
use vvagent.Store.Rows.{update, changed}
use vvagent.Store.Peers.Pins.{peer_by_id, label_text}
use vvagent.Store.Peers.Leases.{lease_is_live}

abbrev pub resolution_timeout_ms : ℕ
resolution_timeout_ms = 10000

abbrev pub resolution_retention_ms : ℕ
resolution_retention_ms = 60000

abbrev pub max_pending_resolutions : ℕ
max_pending_resolutions = 64

-- Unanswered, and still worth asking.
abbrev pub waits_for : Opaque → ℕ → ResolutionRow → Bool
waits_for peer_id now r =
    opaque_eq r.peer_id peer_id
    && is_none r.answer
    && ltb now (r.created_at + resolution_timeout_ms)

abbrev pub is_kept : ℕ → ResolutionRow → Bool
is_kept now r = ltb now (r.created_at + resolution_retention_ms)

abbrev pub question : Store → ℕ → Opaque → Text → ResolutionRow
question s now peer_id selector = record {
  request_id = s.next_request_id;
  peer_id = peer_id;
  selector = selector;
  created_at = now;
  answer = none;
}

-- The peer may be asked: the selector is bounded and a bridge holds the peer's lease.
unfoldable pub askable : Store → ℕ → Opaque → Text → Result (Unit {0})
askable s now peer_id selector =
    refuse_if
      (is_empty selector || ltb max_selector_bytes (len selector) || any is_control selector)
      (codes "a selector is 1..=256 bytes with no control characters")
    >> (peer_by_id s peer_id >>= λ p.
        if lease_is_live now p
        then ok tt
        else err (
            new peer_unreachable (
              codes "no bridge to `"
              ++ (label_text p.label
                  ++ codes
                      "` is connected, and only it can say what that names; connect first, or address an exact id, which queues while it is away"))))

unfoldable pub request_resolution : Store → ℕ → Opaque → Text → Result ℕ × Store
unfolding askable
request_resolution s now peer_id selector = elim (askable s now peer_id selector) [
  | err e ↦ (err e, s)
  | ok u ↦
      let recent = keep (is_kept now) s.resolutions in
      if leb max_pending_resolutions (length (keep (waits_for peer_id now) recent))
      then (
        err (new rate_limited (codes "too many questions are already waiting for that peer")),
        s,
      )
      else (
        ok s.next_request_id,
        record s {
          resolutions = recent ++ question s now peer_id selector ∷ [];
          next_request_id = s.next_request_id + 1;
        },
      )
]

-- `ORDER BY request_id`: rows stand in the order of their ids.
unfoldable pub pending_resolutions : Store → ℕ → Opaque → List ResolutionRow
pending_resolutions s now peer_id = keep (waits_for peer_id now) s.resolutions

-- `request_id=?1 AND peer_id=?2 AND answered_at IS NULL`
abbrev pub open_question : ℕ → Opaque → ResolutionRow → Bool
open_question id peer_id r = r.request_id == id && opaque_eq r.peer_id peer_id && is_none r.answer

unfoldable pub answer_resolution : Store → Opaque → ℕ → Answer → Bool × Store
answer_resolution s peer_id id answer = (
  ltb 0 (changed (open_question id peer_id) s.resolutions),
  record s {
    resolutions =
        update (open_question id peer_id) (λ r. record r { answer = some answer }) s.resolutions;
  },
)

abbrev pub is_question : ℕ → ResolutionRow → Bool
is_question id r = r.request_id == id

-- Reading an answer removes it.
unfoldable pub take_resolution : Store → ℕ → Option Answer × Store
take_resolution s id = elim (find (is_question id) s.resolutions) [
  | none ↦ (none, s)
  | some r ↦ elim r.answer [
    | none ↦ (none, s)
    | some answer ↦
        (some answer, record s { resolutions = keep (λ q. not (is_question id q)) s.resolutions })
  ]
]
