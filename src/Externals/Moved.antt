-- ===== src/Externals/Moved.antt =====
-- The branch of `ingest_snapshot` of externals.py that moves the head keeps the invariant.
use lode.Prelude.{
  Text, true, List, [], ◌∷◌, Option, none, some, ◌≡◌, ◌⊎◌, inl, inr, refl, ap, ◌∙◌, subst, str_eq,
  str_eq_iff, ne_of_str_eq, if◌then◌else◌, any, Bool-cases,
}
use lode.Hashing.{Hashers, content_snapshot_id}
use lode.Schema.{ExternalRow, SnapshotRow, live}
use lode.Jobs.{JobRow, embed}
use lode.Jobs.Grow.{is_job_for, enqueue-grows, enqueue-is_job_for}
use lode.Egress.{Pattern}
use lode.Store.{Store}
use lode.Externals.{
  find_external, find_snapshot, head_column, insert_snapshot, Fetched, is_tombstone, snapshot_row,
  move_to_snapshot, enqueued,
}
use lode.Externals.Tables.{
  find_external-move_head, find_snapshot-insert_snapshot, find_snapshot-insert_snapshot_here,
  with_head, or_new,
}
use lode.Externals.Mirror.{
  Collides, IsHeaded, IsAddressed, IsEmbedded, IsMirror, insert_snapshot-Grows, IsHeaded-Grows,
}
use mathlib.Core.Option

-- The row that a conflict leaves in the table, or the new one.
own_or_Collides :
    (h : Hashers) (c k body i : Text) (s : SnapshotRow)
    → content_snapshot_id h c k body ≡ some i
    → content_snapshot_id h c s.external_id s.body ≡ some i
    → (s.external_id ≡ k) ⊎ Collides h c i
own_or_Collides h c k body i s hashed addressed = elim (Bool-cases (str_eq s.external_id k)) [
  | inl same ↦ inl ((str_eq_iff s.external_id k).0 same)
  | inr other ↦
      inr (s.external_id, s.body, k, body, ne_of_str_eq s.external_id k other, addressed, hashed)
]

IsHeaded-here :
    (h : Hashers) (c : Text) (f : Fetched) (i : Text) (ss : List SnapshotRow)
    → content_snapshot_id h c f.external_id f.body ≡ some i
    → IsAddressed h c i (find_snapshot i ss)
    → IsHeaded h c (insert_snapshot (snapshot_row f i) ss) f.external_id (some i)
IsHeaded-here h c f i ss hashed addressed = (
  or_new (snapshot_row f i) (find_snapshot i ss),
  find_snapshot-insert_snapshot_here (snapshot_row f i) ss,
  own (find_snapshot i ss) addressed,
)
  where
    own :
        (o : Option SnapshotRow)
        → IsAddressed h c i o
        → ((or_new (snapshot_row f i) o).external_id ≡ f.external_id) ⊎ Collides h c i
    own none u = inl refl
    own (some s) u = own_or_Collides h c f.external_id f.body i s hashed u

IsHeaded-moved :
    (h : Hashers) (c : Text) (ss : List SnapshotRow) (i k j : Text) (o : Option ExternalRow)
    → IsHeaded h c ss k (some i)
    → IsHeaded h c ss j (head_column o)
    → IsHeaded h c ss j (head_column (if str_eq k j then Option.map (with_head i) o else o))
IsHeaded-moved h c ss i k j o here there = elim (Bool-cases (str_eq k j)) [
  | inr other ↦ rw other there
  | inl same ↦ rw same (at_head ((str_eq_iff k j).0 same) o)
]
  where
    at_head :
        k ≡ j
        → (o : Option ExternalRow) → IsHeaded h c ss j (head_column (Option.map (with_head i) o))
    at_head same none = tt
    at_head same (some e) = subst (λ l. IsHeaded h c ss l (some i)) same here

IsAddressed-inserted :
    (h : Hashers) (c : Text) (f : Fetched) (i j : Text) (o : Option SnapshotRow)
    → content_snapshot_id h c f.external_id f.body ≡ some i
    → IsAddressed h c j o
    → IsAddressed h c j (if str_eq i j then some (or_new (snapshot_row f i) o) else o)
IsAddressed-inserted h c f i j none hashed u = elim (Bool-cases (str_eq i j)) [
  | inr other ↦ rw other tt
  | inl same ↦ rw same (hashed ∙ ap some ((str_eq_iff i j).0 same))
]
IsAddressed-inserted h c f i j (some s) hashed u = elim (Bool-cases (str_eq i j)) [
  | inr other ↦ rw other u
  | inl same ↦ rw same u
]

-- The jobs after the enqueue of a fetched snapshot.
enqueued-embeds :
    (f : Fetched) (i : Text) (js : List JobRow)
    → f.status ≡ live
    → any (is_job_for embed i) (enqueued f i js) ≡ true
enqueued-embeds f i js there = rw there (enqueue-is_job_for f.enqueued_at i embed js)

enqueued-grows :
    (f : Fetched) (i j : Text) (js : List JobRow)
    → any (is_job_for embed j) js ≡ true
    → any (is_job_for embed j) (enqueued f i js) ≡ true
enqueued-grows f i j js there = elim (Bool-cases (is_tombstone f.status)) [
  | inl gone ↦ rw gone there
  | inr fetched ↦
      rw fetched (enqueue-grows (is_job_for embed j) f.enqueued_at i (embed ∷ []) js there)
]

IsEmbedded-inserted :
    (f : Fetched) (i j : Text) (js : List JobRow) (o : Option SnapshotRow)
    → IsEmbedded js j o
    → IsEmbedded (enqueued f i js) j (if str_eq i j then some (or_new (snapshot_row f i) o) else o)
IsEmbedded-inserted f i j js none u = elim (Bool-cases (str_eq i j)) [
  | inr other ↦ rw other tt
  | inl same ↦ rw same (λ l.
      subst (λ k. any (is_job_for embed k) (enqueued f i js) ≡ true) ((str_eq_iff i j).0 same)
        (enqueued-embeds f i js l))
]
IsEmbedded-inserted f i j js (some s) u = elim (Bool-cases (str_eq i j)) [
  | inr other ↦ rw other (λ l. enqueued-grows f i j js (u l))
  | inl same ↦ rw same (λ l. enqueued-grows f i j js (u l))
]

pub move_to_snapshot-IsMirror :
    (h : Hashers) (c : Text) (patterns : List Pattern) (f : Fetched) (i : Text) (st : Store)
    → content_snapshot_id h c f.external_id f.body ≡ some i
    → IsMirror h c st
    → IsMirror h c (move_to_snapshot patterns f i st)
unfolding move_to_snapshot
move_to_snapshot-IsMirror h c patterns f i st hashed m = record {
  headed = λ j. rw (find_external-move_head j i f.external_id st.externals) (
      IsHeaded-moved h c (insert_snapshot (snapshot_row f i) st.snapshots) i f.external_id j
        (find_external j st.externals) (IsHeaded-here h c f i st.snapshots hashed (m.addressed i))
        (IsHeaded-Grows h c j st.snapshots (insert_snapshot (snapshot_row f i) st.snapshots)
          (head_column (find_external j st.externals))
          (insert_snapshot-Grows (snapshot_row f i) st.snapshots) (m.headed j)));
  addressed = λ j.
      rw (find_snapshot-insert_snapshot j (snapshot_row f i) st.snapshots)
        (IsAddressed-inserted h c f i j (find_snapshot j st.snapshots) hashed (m.addressed j));
  embedded = λ j.
      rw (find_snapshot-insert_snapshot j (snapshot_row f i) st.snapshots)
        (IsEmbedded-inserted f i j st.jobs (find_snapshot j st.snapshots) (m.embedded j));
}
