-- ===== src/Versions/Conflicts.antt =====
-- Two editors of one note, and the compare-and-swap of versions.py.
use lode.Prelude.{
  Text, true, false, Option, none, some, ◌≡◌, ◌≢◌, ◌⊎◌, inl, inr, sym, ap, ◌∙◌, str_eq, str_eq_iff,
  str_eq_ne, Bool-cases, Option-cases,
}
use lode.Hashing.{Hashers, HexDigests, content_version_id}
use lode.Schema.{update, NoteRow, VersionRow, Db}
use lode.Versions.Sql.{find_version}
use lode.Versions.Chain.{IsSound}
use lode.Versions.Outcomes.{IsHeadOf, appended, result, update_outcome}
use lode.Versions.Keeps.{head_parts}
use lode.Versions.Step.{step-IsSound}
use lode.Versions.Behaviour.{save_outcome, save_core_lem, head-appended}
use lode.Versions.{
  Result, ok, err, head_conflict, SaveResult, Settings, head, updated, committed, save, saves, step,
}

module _ (h : Hashers) (settings : Settings) (db : Db)
    (s : IsSound h settings.content_hash db) where
  pub save_lem :
      (k b p : Text) (o : Option (Text × Text))
      → head db k ≡ o
      → save h settings k b p db ≡ committed db (save_outcome h settings db k b p none o)
  unfolding save
  save_lem k b p o at =
      ap (committed db)
        (save_core_lem h settings db s k b p none ∙ ap (save_outcome h settings db k b p none) at)

-- A successful update writes one version, whose id was free.
update_outcome_parts :
    (db : Db) (k b live : Text) (o : Option Text) (r : SaveResult)
    → (committed db (update_outcome db k b live o)).0 ≡ ok r
    → (find_version r.version_id db.versions ≡ none)
      × ((committed db (update_outcome db k b live o)).1 ≡ appended db k live b update r.version_id)
update_outcome_parts db k b live none r e = cc
update_outcome_parts db k b live (some i) r e = elim (Option-cases (find_version i db.versions)) [
  | inr (v, taken) ↦ cc (rw (taken, update_outcome) at e)
  | inl free ↦
      let same : result k i updated false ≡ r = cc (rw (free, update_outcome) at e) in
      let same_id : r.version_id ≡ i = ap (λ (x : SaveResult). x.version_id) (sym same) in
      (rw same_id free, rw (same_id, free, update_outcome))
]

module _ (h : Hashers) (settings : Settings) (db : Db)
    (s : IsSound h settings.content_hash db) where
  -- A save that wrote a version was parented on the live head, and moved the head to it.
  pub head-save :
      (k b p live lb : Text) (r : SaveResult)
      → head db k ≡ some (live, lb)
      → (save h settings k b p db).0 ≡ ok r
      → r.deduped ≡ false
      → (p ≡ live)
        × (r.version_id ≢ live)
        × (head (save h settings k b p db).1 k ≡ some (r.version_id, b))
  head-save k b p live lb r at saved wrote =
      let e = save_lem h settings db s k b p (some (live, lb)) at in
      let (n, v, rows) = head_parts h settings.content_hash db s k live lb at in
      rw e (
        wrote_new n v rows (ap (λ (x : Result SaveResult × Db). x.0) (sym e) ∙ saved)
          (Bool-cases (str_eq p live)) (Bool-cases (str_eq b lb)))
    where
      outcome : Result SaveResult × Db
      outcome = committed db (save_outcome h settings db k b p none (some (live, lb)))

      wrote_new :
          (n : NoteRow) (v : VersionRow)
          → IsHeadOf db k live lb n v
          → outcome.0 ≡ ok r
          → (str_eq p live ≡ true) ⊎ (str_eq p live ≡ false)
          → (str_eq b lb ≡ true) ⊎ (str_eq b lb ≡ false)
          → (p ≡ live) × (r.version_id ≢ live) × (head outcome.1 k ≡ some (r.version_id, b))
      wrote_new n v rows got (inr stale) _ = cc (rw (stale, save_outcome) at got)
      wrote_new n v rows got (inl held) (inl same) =
          let kept : result k live updated true ≡ r = cc (rw (held, same, save_outcome) at got) in
          cc (wrote, ap (λ (x : SaveResult). x.deduped) kept)
      wrote_new n v rows got (inl held) (inr changed) =
          let o = content_version_id h settings.content_hash k live b in
          let (free, after) =
            update_outcome_parts db k b live o r (rw (held, changed, save_outcome) at got) in
          (
            (str_eq_iff p live).0 held,
            λ e. cc (free, e, rows.version_found, ap (λ i. find_version i db.versions) e),
            rw (held, changed, after)
                (head-appended db k live b r.version_id update n rows.note_found),
          )

-- Two editors open the same version of a note. Once one save has written a version, the other save
-- from that parent changes nothing, and its conflict carries the new head with its body, and the
-- second editor's text.
pub second_save_conflicts :
    (h : Hashers) (settings : Settings) (db : Db) (k b b' p live lb : Text) (r : SaveResult)
    → HexDigests h
    → IsSound h settings.content_hash db
    → head db k ≡ some (live, lb)
    → (save h settings k b p db).0 ≡ ok r
    → r.deduped ≡ false
    → save h settings k b' p (save h settings k b p db).1 ≡ (
      err (head_conflict k p (some r.version_id) (some b) (some b')),
      (save h settings k b p db).1,
    )
second_save_conflicts h settings db k b b' p live lb r hex s at saved wrote =
    let (held, moved, at') = head-save h settings db s k b p live lb r at saved wrote in
    let db' = (save h settings k b p db).1 in
    let s' : IsSound h settings.content_hash db' =
      unfold step save in step-IsSound h settings hex db s (saves k b p none) in
    save_lem h settings db' s' k b' p (some (r.version_id, b)) at'
    ∙ rw (str_eq_ne p r.version_id (λ e. moved (sym e ∙ held)))
