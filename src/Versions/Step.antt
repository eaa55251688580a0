-- ===== src/Versions/Step.antt =====
-- The requests to the version store of versions.py and its invariant.
use lode.Prelude.{
  ℕ, Text, Bool, List, [], ◌∷◌, Option, none, some, ◌≡◌, inl, inr, refl, str_eq, str_eq_iff,
  Bool-cases, Option-cases,
}
use lode.Hashing.{Hashers, HexDigests, no_parent}
use lode.Schema.{Db}
use lode.Versions.Sql.{find_version}
use lode.Versions.Chain.{IsSound}
use lode.Versions.Chain.Push.{set_head-IsSound, set_flag-IsSound}
use lode.Versions.Chain.Redact.{redact-IsSound}
use lode.Versions.Outcomes.{append_update_lem, append_tombstone_lem, create_root_lem}
use lode.Versions.{
  Settings, head_row, head, create_root, append_update, save_core, append_tombstone, delete_core,
  delete_note, recover, recover_core, purge, purge_core, set_no_egress, purge_marker, Request,
  saves, deletes, recovers, purges, flags, step, run,
}
use lode.Versions.Keeps.{
  head_parts, head_absent, Keeps, Keeps-committed, update_outcome-Keeps, tombstone_outcome-Keeps,
  create_outcome-Keeps,
}

module _ (h : Hashers) (settings : Settings) (hex : HexDigests h) (db : Db)
    (s : IsSound h settings.content_hash db) where
  append_update-Keeps :
      (k b p live lb : Text)
      → head db k ≡ some (live, lb)
      → Keeps h settings.content_hash db (append_update h settings k b p live lb db)
  append_update-Keeps k b p live lb e =
      let (n, v, at) = head_parts h settings.content_hash db s k live lb e in
      rw (append_update_lem h settings db s.keyed k b p live lb n at.note_found at.at_head)
        (elim (Bool-cases (str_eq p live)) [
          | inr stale ↦ rw stale tt
          | inl held ↦ rw held (elim (Bool-cases (str_eq b lb)) [
            | inl same ↦ rw same s
            | inr changed ↦
                rw changed (update_outcome-Keeps h settings hex db s k b live lb n v _ at refl)
          ])
        ])

  append_tombstone-Keeps :
      (k p live lb : Text)
      → head db k ≡ some (live, lb)
      → Keeps h settings.content_hash db (append_tombstone h settings k p live lb db)
  append_tombstone-Keeps k p live lb e =
      let (n, v, at) = head_parts h settings.content_hash db s k live lb e in
      rw (append_tombstone_lem h settings db s.keyed k p live lb n at.note_found at.at_head)
        (elim (Bool-cases (str_eq p live)) [
          | inr stale ↦ rw stale tt
          | inl held ↦ rw held (tombstone_outcome-Keeps h settings hex db s k live lb n v _ at refl)
        ])

  create_root-Keeps :
      (k b p : Text) (flag : Option Bool)
      → head db k ≡ none
      → Keeps h settings.content_hash db (create_root h settings k b p flag db)
  create_root-Keeps k b p flag e =
      rw (create_root_lem h settings db s.keyed k b p flag)
        (elim (Bool-cases (str_eq p no_parent)) [
          | inr stale ↦ rw stale tt
          | inl fresh ↦ rw fresh (
              create_outcome-Keeps h settings hex db s k b _ _
                (head_absent h settings.content_hash db s k e) refl)
        ])

  save_core-Keeps :
      (k b p : Text) (flag : Option Bool)
      → Keeps h settings.content_hash db (save_core h settings k b p flag db)
  unfolding save_core
  save_core-Keeps k b p flag = elim (Option-cases (head db k)) [
    | inl absent ↦ rw (absent, Keeps) (create_root-Keeps k b p flag absent)
    | inr ((live, lb), at) ↦ rw (at, Keeps) (append_update-Keeps k b p live lb at)
  ]

  delete_core-Keeps :
      (k p : Text) → Keeps h settings.content_hash db (delete_core h settings k p db)
  unfolding delete_core
  delete_core-Keeps k p = elim (Option-cases (head db k)) [
    | inl absent ↦ rw (absent, Keeps) tt
    | inr ((live, lb), at) ↦ rw (at, Keeps) (append_tombstone-Keeps k p live lb at)
  ]

  recover_core-Keeps : (k i : Text) → Keeps h settings.content_hash db (recover_core k i db)
  unfolding recover_core
  recover_core-Keeps k i = elim (Option-cases (find_version i db.versions)) [
    | inl absent ↦ rw (absent, Keeps) tt
    | inr (w, found) ↦ rw found (elim (Bool-cases (str_eq w.note_id k)) [
      | inr other ↦ rw other tt
      | inl mine ↦ rw mine (
          set_head-IsSound h settings.content_hash db k i w s found
            ((str_eq_iff w.note_id k).0 mine))
    ])
  ]

  purge_core-Keeps :
      (day : Text) (now : ℕ) (k : Text) → Keeps h settings.content_hash db (purge_core day now k db)
  unfolding purge_core
  purge_core-Keeps day now k = elim (Option-cases (head_row db k)) [
    | inl absent ↦ rw (absent, Keeps) tt
    | inr (v, found) ↦
        rw (found, Keeps)
          (redact-IsSound h settings.content_hash (purge_marker day) now k db _ s refl refl)
  ]

  pub step-IsSound : (r : Request) → IsSound h settings.content_hash (step h settings db r)
  unfolding step save_core delete_note recover purge set_no_egress
  step-IsSound (saves k b p flag) =
      Keeps-committed h settings.content_hash db _ s (save_core-Keeps k b p flag)
  step-IsSound (deletes k p) =
      Keeps-committed h settings.content_hash db _ s (delete_core-Keeps k p)
  step-IsSound (recovers k i) =
      Keeps-committed h settings.content_hash db _ s (recover_core-Keeps k i)
  step-IsSound (purges day now k) =
      Keeps-committed h settings.content_hash db _ s (purge_core-Keeps day now k)
  step-IsSound (flags k flag) = set_flag-IsSound h settings.content_hash db k flag s

-- Where the hash gives 32 characters, any requests, in any order and whether they succeed or raise,
-- keep a sound store sound: ids are unique, every version's parent is an older version of its note,
-- every head is a version of its own note, and every id is the content address of its row until a
-- purge.
pub run-IsSound :
    (h : Hashers) (settings : Settings) (hex : HexDigests h) (db : Db) (rs : List Request)
    → IsSound h settings.content_hash db
    → IsSound h settings.content_hash (run h settings db rs)
unfolding run
run-IsSound h settings hex db [] s = s
run-IsSound h settings hex db (r ∷ rs) s =
    run-IsSound h settings hex (step h settings db r) rs (step-IsSound h settings hex db s r)
