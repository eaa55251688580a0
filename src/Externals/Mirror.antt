-- ===== src/Externals/Mirror.antt =====
-- The invariant of the mirror of externals.py.
use lode.Prelude.{
  ℕ, Text, Bool, true, false, List, Option, none, some, ◌≡◌, ◌≢◌, ◌⊎◌, inl, inr, refl, ◌∙◌, subst,
  str_eq, if◌then◌else◌, any, Option-cases,
}
use lode.Hashing.{Hashers, content_snapshot_id}
use lode.Schema.{SnapshotRow, live}
use lode.Jobs.{JobRow, embed}
use lode.Jobs.Grow.{is_job_for}
use lode.Externals.{find_external, find_snapshot, head_column, set_fetched_at, insert_snapshot}
use lode.Externals.Tables.{find_snapshot-set_fetched_at, find_snapshot-insert_snapshot}
use lode.Store.{Store}

-- Two sources with one snapshot id.
abbrev pub Collides : Hashers → Text → Text → Type 0
Collides h c i =
    (k b k' b' : Text) × (k ≢ k')
    × (content_snapshot_id h c k b ≡ some i)
    × (content_snapshot_id h c k' b' ≡ some i)

-- A head is a snapshot of its own source, unless two sources share its id.
abbrev pub IsHeaded : Hashers → Text → List SnapshotRow → Text → Option Text → Type 0
IsHeaded h c ss k none = Unit
IsHeaded h c ss k (some i) =
    (s : SnapshotRow) × (find_snapshot i ss ≡ some s) × ((s.external_id ≡ k) ⊎ Collides h c i)

-- The id of a snapshot is the content address of its row.
abbrev pub IsAddressed : Hashers → Text → Text → Option SnapshotRow → Type 0
IsAddressed h c i none = Unit
IsAddressed h c i (some s) = content_snapshot_id h c s.external_id s.body ≡ some i

-- A snapshot that was fetched has a job of embedding.
abbrev pub IsEmbedded : List JobRow → Text → Option SnapshotRow → Type 0
IsEmbedded js i none = Unit
IsEmbedded js i (some s) = s.status ≡ live → any (is_job_for embed i) js ≡ true

pub record IsMirror (h : Hashers) (content_hash : Text) (st : Store) : Type 0 where
  pub headed :
      (k : Text)
      → IsHeaded h content_hash st.snapshots k (head_column (find_external k st.externals))
  pub addressed : (i : Text) → IsAddressed h content_hash i (find_snapshot i st.snapshots)
  pub embedded : (i : Text) → IsEmbedded st.jobs i (find_snapshot i st.snapshots)

-- The columns of a snapshot that are written once.
pub record IsSame (s s' : SnapshotRow) : Type 0 where
  pub same_source : s'.external_id ≡ s.external_id
  pub same_body : s'.body ≡ s.body
  pub same_payload : s'.raw_payload ≡ s.raw_payload
  pub same_status : s'.status ≡ s.status

abbrev pub IsKept : SnapshotRow → Option SnapshotRow → Type 0
IsKept s none = ⊥
IsKept s (some s') = IsSame s s'

-- Each snapshot stays, with those columns.
abbrev pub Grows : List SnapshotRow → List SnapshotRow → Type 0
Grows ss ss' =
    (i : Text) (s : SnapshotRow) → find_snapshot i ss ≡ some s → IsKept s (find_snapshot i ss')

pub IsSame-refl : (s : SnapshotRow) → IsSame s s
IsSame-refl s = record {
  same_source = refl;
  same_body = refl;
  same_payload = refl;
  same_status = refl;
}

pub IsKept-trans :
    (s : SnapshotRow) (o q : Option SnapshotRow)
    → IsKept s o
    → ((t : SnapshotRow) → o ≡ some t → IsKept t q)
    → IsKept s q
IsKept-trans s none q k next = absurd k
IsKept-trans s (some t) q k next = joined t k q (next t refl)
  where
    joined : (t : SnapshotRow) → IsSame s t → (q : Option SnapshotRow) → IsKept t q → IsKept s q
    joined t a none b = absurd b
    joined t a (some u) b = record {
      same_source = b.same_source ∙ a.same_source;
      same_body = b.same_body ∙ a.same_body;
      same_payload = b.same_payload ∙ a.same_payload;
      same_status = b.same_status ∙ a.same_status;
    }

pub Grows-refl : (ss : List SnapshotRow) → Grows ss ss
Grows-refl ss i s found = rw found (IsSame-refl s)

pub set_fetched_at-Grows :
    (t : ℕ) (k : Text) (ss : List SnapshotRow) → Grows ss (set_fetched_at t k ss)
set_fetched_at-Grows t k ss i s found =
    rw (find_snapshot-set_fetched_at i t k ss, found) (timed (str_eq k i))
  where
    timed : (b : Bool) → IsKept s (if b then some (record s { fetched_at = t }) else some s)
    timed true = record {
      same_source = refl;
      same_body = refl;
      same_payload = refl;
      same_status = refl;
    }
    timed false = IsSame-refl s

pub insert_snapshot-Grows :
    (row : SnapshotRow) (ss : List SnapshotRow) → Grows ss (insert_snapshot row ss)
insert_snapshot-Grows row ss i s found =
    rw (find_snapshot-insert_snapshot i row ss, found) (kept (str_eq row.snapshot_id i))
  where
    kept : (b : Bool) → IsKept s (if b then some s else some s)
    kept true = IsSame-refl s
    kept false = IsSame-refl s

IsHeaded-kept :
    (h : Hashers) (c k i : Text) (ss' : List SnapshotRow) (s : SnapshotRow)
    → (s.external_id ≡ k) ⊎ Collides h c i
    → IsKept s (find_snapshot i ss')
    → IsHeaded h c ss' k (some i)
IsHeaded-kept h c k i ss' s own kept = elim (Option-cases (find_snapshot i ss')) [
  | inl gone ↦ absurd (subst (IsKept s) gone kept)
  | inr (s', found) ↦
      let same : IsSame s s' = subst (IsKept s) found kept in (s', found, moved s' same own)
]
  where
    moved :
        (s' : SnapshotRow)
        → IsSame s s'
        → (s.external_id ≡ k) ⊎ Collides h c i
        → (s'.external_id ≡ k) ⊎ Collides h c i
    moved s' same (inl e) = inl (same.same_source ∙ e)
    moved s' same (inr clash) = inr clash

-- A head that was sound stays so over a table that has grown.
pub IsHeaded-Grows :
    (h : Hashers) (c k : Text) (ss ss' : List SnapshotRow) (o : Option Text)
    → Grows ss ss'
    → IsHeaded h c ss k o
    → IsHeaded h c ss' k o
IsHeaded-Grows h c k ss ss' none g u = tt
IsHeaded-Grows h c k ss ss' (some i) g (s, found, own) =
    IsHeaded-kept h c k i ss' s own (g i s found)
