-- ===== src/Externals/Keeps.antt =====
-- The statements of externals.py keep the invariant of the mirror.
use lode.Prelude.{
  ℕ, Text, Bool, true, false, List, Option, none, some, ◌≡◌, inl, inr, refl, sym, subst, str_eq,
  if◌then◌else◌, any, Bool-cases,
}
use lode.Hashing.{Hashers}
use lode.Schema.{ExternalRow, SnapshotRow}
use lode.Jobs.{JobRow, embed}
use lode.Jobs.Grow.{is_job_for}
use lode.Versions.{Settings}
use lode.Store.{Store}
use lode.Externals.{
  find_external, find_snapshot, head_column, insert_external, set_fetched_at, Fetched, is_tombstone,
  dedup,
}
use lode.Externals.Fetch.{flag_external}
use lode.Externals.Tables.{
  find_external-insert_external, find_external-flag_external, find_snapshot-set_fetched_at,
  with_flag, with_time, or_new, new_external,
}
use lode.Externals.Mirror.{
  IsHeaded, IsAddressed, IsEmbedded, IsMirror, set_fetched_at-Grows, IsHeaded-Grows,
}
use mathlib.Core.Option

pub head_column-insert_external :
    (j : Text) (settings : Settings) (k t : Text) (a : Option Text) (es : List ExternalRow)
    → head_column (find_external j (insert_external settings k t a es).0)
      ≡ head_column (find_external j es)
head_column-insert_external j settings k t a es =
    rw (find_external-insert_external j settings k t a es)
      (new_or_old (str_eq k j) (find_external j es))
  where
    new_or_old :
        (b : Bool) (o : Option ExternalRow)
        → head_column (if b then some (or_new (new_external settings k t a) o) else o)
          ≡ head_column o
    new_or_old true none = refl
    new_or_old true (some e) = refl
    new_or_old false o = refl

head_column-flag_external :
    (j k : Text) (b : Bool) (es : List ExternalRow)
    → head_column (find_external j (flag_external k b es).0) ≡ head_column (find_external j es)
head_column-flag_external j k b es =
    rw (find_external-flag_external j k b es) (flagged (str_eq k j) (find_external j es))
  where
    flagged :
        (hit : Bool) (o : Option ExternalRow)
        → head_column (if hit then Option.map (with_flag b) o else o) ≡ head_column o
    flagged true none = refl
    flagged true (some e) = refl
    flagged false o = refl

pub insert_external-IsMirror :
    (h : Hashers) (c : Text) (settings : Settings) (k t : Text) (a : Option Text) (st : Store)
    → IsMirror h c st
    → IsMirror h c (record st { externals = (insert_external settings k t a st.externals).0 })
insert_external-IsMirror h c settings k t a st m = record {
  headed = λ j.
      subst (IsHeaded h c st.snapshots j)
        (sym (head_column-insert_external j settings k t a st.externals)) (m.headed j);
  addressed = m.addressed;
  embedded = m.embedded;
}

pub flag_external-IsMirror :
    (h : Hashers) (c k : Text) (b : Bool) (st : Store)
    → IsMirror h c st
    → IsMirror h c (record st { externals = (flag_external k b st.externals).0 })
flag_external-IsMirror h c k b st m = record {
  headed = λ j.
      subst (IsHeaded h c st.snapshots j) (sym (head_column-flag_external j k b st.externals))
        (m.headed j);
  addressed = m.addressed;
  embedded = m.embedded;
}

IsEmbedded-grown :
    (js js' : List JobRow) (i : Text) (o : Option SnapshotRow)
    → (any (is_job_for embed i) js ≡ true → any (is_job_for embed i) js' ≡ true)
    → IsEmbedded js i o
    → IsEmbedded js' i o
IsEmbedded-grown js js' i none grow e = tt
IsEmbedded-grown js js' i (some s) grow e = λ l. grow (e l)

-- A change of the jobs that loses no job of embedding.
pub jobs-IsMirror :
    (h : Hashers) (c : Text) (st : Store) (js : List JobRow)
    → ((i : Text) → any (is_job_for embed i) st.jobs ≡ true → any (is_job_for embed i) js ≡ true)
    → IsMirror h c st
    → IsMirror h c (record st { jobs = js })
jobs-IsMirror h c st js grow m = record {
  headed = m.headed;
  addressed = m.addressed;
  embedded =
      λ i. IsEmbedded-grown st.jobs js i (find_snapshot i st.snapshots) (grow i) (m.embedded i);
}

set_fetched_at-IsMirror :
    (h : Hashers) (c : Text) (t : ℕ) (k : Text) (st : Store)
    → IsMirror h c st
    → IsMirror h c (record st { snapshots = set_fetched_at t k st.snapshots })
set_fetched_at-IsMirror h c t k st m = record {
  headed = λ j.
      IsHeaded-Grows h c j st.snapshots (set_fetched_at t k st.snapshots)
        (head_column (find_external j st.externals)) (set_fetched_at-Grows t k st.snapshots)
        (m.headed j);
  addressed = λ i.
      rw (find_snapshot-set_fetched_at i t k st.snapshots)
        (addressed (str_eq k i) i (find_snapshot i st.snapshots) (m.addressed i));
  embedded = λ i.
      rw (find_snapshot-set_fetched_at i t k st.snapshots)
        (embedded (str_eq k i) i (find_snapshot i st.snapshots) (m.embedded i));
}
  where
    addressed :
        (b : Bool) (i : Text) (o : Option SnapshotRow)
        → IsAddressed h c i o
        → IsAddressed h c i (if b then Option.map (with_time t) o else o)
    addressed true i none u = tt
    addressed true i (some s) u = u
    addressed false i o u = u

    embedded :
        (b : Bool) (i : Text) (o : Option SnapshotRow)
        → IsEmbedded st.jobs i o
        → IsEmbedded st.jobs i (if b then Option.map (with_time t) o else o)
    embedded true i none u = tt
    embedded true i (some s) u = u
    embedded false i o u = u

pub dedup-IsMirror :
    (h : Hashers) (c : Text) (f : Fetched) (i : Text) (st : Store)
    → IsMirror h c st
    → IsMirror h c (dedup f i st)
unfolding dedup
dedup-IsMirror h c f i st m = elim (Bool-cases (is_tombstone f.status)) [
  | inl gone ↦ rw gone m
  | inr there ↦ rw there (set_fetched_at-IsMirror h c f.fetched_at i st m)
]
