-- ===== src/Store.antt =====
-- The whole database, as the code sees it that works on several of its tables, and the calls of the
-- derived cache. `Db` holds the tables of the notes; the jobs and the mirror of the external sources
-- stand beside it. The cache can be built again, so a call of it is only recorded, the newest last.
use lode.Prelude.{Text, List}
use lode.Schema.{Db, ExternalRow, SnapshotRow}
use lode.Jobs.{JobRow}

-- A `CacheBackend`: `index(note_id, version_id, body)` and `evict(note_id, version_id)`.
pub data CacheCall : Type 0 where
  index_call : (target version_id body : Text) → CacheCall
  evict_call : (target version_id : Text) → CacheCall

pub record Store : Type 0 where
  pub db : Db
  pub jobs : List JobRow
  pub externals : List ExternalRow
  pub snapshots : List SnapshotRow
  pub cache : List CacheCall
