-- ===== src/Schema.antt =====
-- schema.sql: the rows of the tables that the modelled code reads and writes, and the database as
-- one record of tables. A table is a list of rows, the newest (the greatest `rowid`) first.
-- Columns that no modelled code reads (`created`, `model`, `provider`, `confidence`, `reason`) are
-- left out. A timestamp is a number of milliseconds: the fixed-width ISO text that the program
-- stores sorts as the number does.
use lode.Prelude.{ℕ, Text, Bool, List, Option}

pub data Op : Type 0 where
  create update delete : Op

pub record NoteRow : Type 0 where
  pub note_id : Text
  pub head_version_id : Text
  pub no_egress : Bool

pub record VersionRow : Type 0 where
  pub version_id : Text
  pub note_id : Text
  pub parent_version_id : Option Text
  pub body : Text
  pub op : Op
  pub purged_at : Option ℕ

pub data Source : Type 0 where
  ai user : Source

pub data AnchorStatus : Type 0 where
  fresh stale orphaned : AnchorStatus

-- `anchor_value` is `str(json.loads(payload))`.
pub record AnnotationRow : Type 0 where
  pub id : ℕ
  pub target : Text
  pub source_version : Option Text
  pub anchor_value : Text
  pub source : Source
  pub status : AnchorStatus
  pub quoted_text : Option Text

pub record EdgeRow : Type 0 where
  pub id : ℕ
  pub from_id : Text
  pub to_id : Text
  pub source : Source
  pub source_version : Option Text
  pub quoted_text : Option Text
  pub status : AnchorStatus

pub record Db : Type 0 where
  pub notes : List NoteRow
  pub versions : List VersionRow
  pub annotations : List AnnotationRow
  pub edges : List EdgeRow

-- `externals`; `created` and `discovered_via` are read by no modelled code.
pub record ExternalRow : Type 0 where
  pub external_id : Text
  pub source_type : Text
  pub head_snapshot_id : Option Text
  pub no_egress : Bool
  pub api_base : Option Text

pub data SnapshotStatus : Type 0 where
  live tombstone : SnapshotStatus

pub record SnapshotRow : Type 0 where
  pub snapshot_id : Text
  pub external_id : Text
  pub body : Text
  pub raw_payload : Option Text
  pub fetched_at : ℕ
  pub status : SnapshotStatus
