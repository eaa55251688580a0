-- ===== src/Drawdown/Refreshed.antt =====
-- What the handler of a refresh job of drawdown.py leaves in the tables.
use lode.Prelude.{
  ℕ, Text, Bool, true, false, List, [], ◌∷◌, map, Option, none, some, ◌≡◌, refl, sym, ap, ◌∙◌,
  subst, str_eq, str_eq_iff, if◌then◌else◌, Bool-cases, inl, inr,
}
use lode.Hashing.{Hashers}
use lode.Schema.{EdgeRow, SnapshotRow}
use lode.Versions.{Settings}
use lode.Versions.Sql.{is_ai}
use lode.Drawdown.Refresh.{points_at, repoint_edges}
use lode.Egress.{Pattern}
use lode.Store.{Store}
use lode.Externals.{
  find_external, find_snapshot, snapshot_at, head_column, head_snapshot, is_beaten, is_tombstone,
  Ingest, IngestResult, ingested, result_of, set_fetched_at, Fetched, dedup, move_to_snapshot,
  ingest_snapshot,
}
use lode.Externals.Tables.{find_snapshot-set_fetched_at, with_time}
use lode.Externals.Ends.{upserted, ingest-elim, snapshot_id_of}
use lode.Externals.Guard.{IsHeadId, is_head-IsHeadId, IsHeadId-move}
use mathlib.Core.Option
use mathlib.Core.Option.{some-injective}

-- The edge of a user follows a redirect.
abbrev pub repointed : Text → Text → EdgeRow → EdgeRow
repointed old new e = if points_at old e then record e { to_id = new } else e

pub repoint_edges-repointed :
    (old new : Text) (es : List EdgeRow) → (repoint_edges old new es).0 ≡ map (repointed old new) es
unfolding repoint_edges
repoint_edges-repointed old new [] = refl
repoint_edges-repointed old new (e ∷ es) = elim (Bool-cases (points_at old e)) [
  | inl hit ↦
      rw (hit, repoint_edges)
        (ap (λ r. record e { to_id = new } ∷ r) (repoint_edges-repointed old new es))
  | inr other ↦ rw (other, repoint_edges) (ap (λ r. e ∷ r) (repoint_edges-repointed old new es))
]

repointed-here : (k : Text) (e : EdgeRow) → repointed k k e ≡ e
repointed-here k e = elim (Bool-cases (str_eq e.to_id k)) [
  | inl here ↦ elim (Bool-cases (is_ai e.source)) [
    | inl ai ↦ rw (here, ai) refl
    | inr user ↦
        rw (here, user)
          (subst (λ t. record e { to_id = t } ≡ e) ((str_eq_iff e.to_id k).0 here) refl)
  ]
  | inr other ↦ rw other refl
]

pub repointed-same : (k : Text) (es : List EdgeRow) → map (repointed k k) es ≡ es
repointed-same k [] = refl
repointed-same k (e ∷ es) =
    ap (λ x. x ∷ map (repointed k k) es) (repointed-here k e)
    ∙ ap (λ xs. e ∷ xs) (repointed-same k es)

abbrev pub unbeaten :
    (o : Option ℕ) (head : Option SnapshotRow) → o ≡ none → is_beaten o head ≡ false
unbeaten none head e = refl
unbeaten (some t) head e = absurd (cc e)

IsHeadId-time :
    (t : ℕ) (i j : Text) (hit : Bool) (o : Option SnapshotRow)
    → IsHeadId i o
    → IsHeadId i (if hit then Option.map (with_time t) o else o)
IsHeadId-time t i j true (some s) e = e
IsHeadId-time t i j false (some s) e = e
IsHeadId-time t i j hit none e = absurd e

module _ (h : Hashers) (settings : Settings) (patterns : List Pattern) where
  -- Where a call without a guard ends.
  abbrev pub Ends : Fetched → Text → Store → Ingest × Store → Type 0
  Ends f i st x =
      (r : IngestResult) × (st' : Store) × (x ≡ (ingested r, st'))
      × (r.status ≡ f.status)
      × IsHeadId i (head_snapshot f.external_id st')
      × (st'.db ≡ st.db)

  dedup-Ends :
      (f : Fetched) (i : Text) (st : Store)
      → IsHeadId i (head_snapshot f.external_id st)
      → IsHeadId i (head_snapshot f.external_id (dedup f i st)) × ((dedup f i st).db ≡ st.db)
  unfolding head_snapshot find_external
  dedup-Ends f i st e = elim (Bool-cases (is_tombstone f.status)) [
    | inl gone ↦ unfold dedup in rw gone (e, refl)
    | inr there ↦
        unfold dedup in
        rw there (timed (head_column (find_external f.external_id st.externals)) e, refl)
  ]
    where
      timed :
          (o : Option Text)
          → IsHeadId i (snapshot_at o st.snapshots)
          → IsHeadId i (snapshot_at o (set_fetched_at f.fetched_at i st.snapshots))
      timed none e = e
      timed (some j) e =
          rw (find_snapshot-set_fetched_at j f.fetched_at i st.snapshots)
            (IsHeadId-time f.fetched_at i j (str_eq i j) (find_snapshot j st.snapshots) e)

  pub ingest-Ends :
      (f : Fetched) (st : Store) (i : Text)
      → f.skip_if_head_at_or_after ≡ none
      → snapshot_id_of h settings patterns f ≡ some i
      → Ends f i st (ingest_snapshot h settings patterns f st)
  ingest-Ends f st i free hashed =
      ingest-elim h settings patterns (Ends f i st) f st
        (λ beat. absurd (
          cc (
            beat,
            unbeaten f.skip_if_head_at_or_after
                (head_snapshot f.external_id (upserted h settings patterns f st)) free,
          )))
        (λ b failed. absurd (cc (failed, hashed)))
        (λ j b named same.
          subst (λ k. Ends f k st (result_of f j true, dedup f j up))
            (some-injective j i (sym named ∙ hashed))
            (let d = dedup-Ends f j up (is_head-IsHeadId j (head_snapshot f.external_id up) same) in
              (_, dedup f j up, refl, refl, d.0, d.1)))
        (λ j b named other.
          subst (λ k. Ends f k st (result_of f j false, move_to_snapshot patterns f j up))
            (some-injective j i (sym named ∙ hashed))
            (
              _,
              move_to_snapshot patterns f j up,
              refl,
              refl,
              IsHeadId-move h settings patterns f j st,
              unfold move_to_snapshot in refl,
            ))
    where
      up : Store
      up = upserted h settings patterns f st
