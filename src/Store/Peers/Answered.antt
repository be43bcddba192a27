-- ===== src/Store/Peers/Answered.antt =====
-- An answer to a question is read once.
use vvagent.Base.{◌≡◌, In}
use vvagent.Identity.Opaque.{Opaque}
use vvagent.Store.Tables.{Store, ResolutionRow}

-- The primary key of `resolution`.
abbrev pub Asked : Store → Type 0
Asked s =
    (x y : ResolutionRow)
    → In x s.resolutions
    → In y s.resolutions
    → x.request_id ≡ y.request_id
    → x ≡ y
