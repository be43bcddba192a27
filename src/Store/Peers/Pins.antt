-- ===== src/Store/Peers/Pins.antt =====
-- `pin_peer`, `peer`, `peer_by_id`, `peer_by_host` and `set_peer_trust`. A `Peer` is its row.
use vvagent.Base.{
  ℕ, Bool, false, not, ◌&&◌, ◌==◌, [], ◌∷◌, ◌++◌, Option, none, some, Text, codes, if◌then◌else◌,
  find, is_some, is_some_and, text_eq,
}
use vvagent.Error.{Result, ok, err, ok_or, new, invalid, not_found, peer_mismatch, io}
use vvagent.Identity.Opaque
use vvagent.Identity.Opaque.{Opaque, opaque_eq}
use vvagent.Identity.PeerLabel
use vvagent.Identity.PeerLabel.{PeerLabel}
use vvagent.Store.Tables.{Store, PeerRow, AuditRow, audit, find_peer}
use vvagent.Store.Rows.{update, changed}

-- `WHERE label=?1 AND retired=0`
abbrev pub labelled : PeerLabel → PeerRow → Bool
labelled l p =
    is_some_and p.label (λ k. text_eq (PeerLabel.as_str k) (PeerLabel.as_str l)) && not p.retired

-- `WHERE peer_id=?1 AND retired=0`
abbrev pub known_as : Opaque → PeerRow → Bool
known_as id p = opaque_eq p.peer_id id && not p.retired

-- `WHERE host_id=?1 AND retired=0`
abbrev pub on_host : Opaque → PeerRow → Bool
on_host host p = opaque_eq p.host_id host && not p.retired

abbrev pub peer_audit : ℕ → Text → Text → AuditRow
peer_audit now operation outcome = record {
  at_ms = now;
  message_id = none;
  endpoint_id = none;
  operation = operation;
  from_state = none;
  to_state = none;
  rule = none;
  bytes = 0;
  result = outcome;
}

unfoldable pub peer : Store → PeerLabel → Result PeerRow
peer s l = ok_or (find (labelled l) s.peers) (new not_found (codes "no such peer"))

unfoldable pub peer_by_id : Store → Opaque → Result PeerRow
peer_by_id s id = ok_or (find (known_as id) s.peers) (new not_found (codes "no such peer"))

unfoldable pub peer_by_host : Store → Opaque → Option PeerRow
peer_by_host s host = find (on_host host) s.peers

abbrev pub label_text : Option PeerLabel → Text
label_text none = []
label_text (some l) = PeerLabel.as_str l

-- The INSERT of `pin_peer`.
abbrev pub pinned_row : PeerLabel → Opaque → Opaque → PeerRow
pinned_row l host fresh = record {
  peer_id = fresh;
  label = some l;
  host_id = host;
  trusted = false;
  retired = false;
  lease = none;
  lease_anchor = none;
}

abbrev pub pinned_to_another : PeerLabel → PeerRow → Opaque → Text
pinned_to_another l p host =
    codes "`"
    ++ (PeerLabel.as_str l
        ++ (codes "` is pinned to store "
            ++ (Opaque.as_str p.host_id
                ++ (codes " but store "
                    ++ (Opaque.as_str host
                        ++ (codes
                              " answered; if the host was reinstalled, run `vvagent peer forget "
                            ++ (PeerLabel.as_str l ++ codes "` and connect again")))))))

unfoldable pub pin_peer : Store → ℕ → PeerLabel → Opaque → Opaque → Result PeerRow × Store
pin_peer s now l host fresh =
    if opaque_eq host s.host_id
    then (err (invalid (codes "that is this store; a host cannot be its own peer")), s)
    else elim (find (labelled l) s.peers) [
      | some p ↦
          if not (opaque_eq p.host_id host)
          then (err (new peer_mismatch (pinned_to_another l p host)), s)
          else (ok p, s)
      | none ↦ elim (find (on_host host) s.peers) [
        | some other ↦ (
          err (
              new peer_mismatch (
                codes "that store is already the peer `"
                ++ (label_text other.label ++ codes "`; connect with that label"))),
          s,
        )
        | none ↦
            if is_some (find_peer s fresh)
            then (err (new io (codes "sqlite: UNIQUE constraint failed: peer.peer_id")), s)
            else (
              ok (pinned_row l host fresh),
              audit (record s { peers = s.peers ++ pinned_row l host fresh ∷ [] })
                  (peer_audit now (codes "peer_pin") (codes "ok")),
            )
      ]
    ]

unfoldable pub set_peer_trust : Store → PeerLabel → Bool → Result (Unit {0}) × Store
set_peer_trust s l trusted =
    if changed (labelled l) s.peers == 0 then (err (new not_found (codes "no such peer")), s) else (
      ok tt,
      record s { peers = update (labelled l) (λ p. record p { trusted = trusted }) s.peers },
    )
