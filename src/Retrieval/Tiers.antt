-- ===== src/Retrieval/Tiers.antt =====
-- The tiers of trust of retrieval.py, as its documentation lists them.
use lode.Prelude.{
  ◌≤◌, Text, codes, Bool, true, false, Option, none, some, ◌≡◌, ◌≢◌, refl, sym, ap, ◌∙◌, str_eq,
  str_eq_iff, arith, Bool-cases, Option-cases, inl, inr, ◌⊎◌,
}
use lode.Schema.{SnapshotRow, ExternalRow, VersionRow}
use lode.Versions.Sql.{find_version}
use lode.Externals.{find_external, find_snapshot}
use lode.Store.{Store}
use mathlib.Core.Option.{some-injective}
use lode.Retrieval.Trust.{
  TrustTier, owned_note, user_annotation, current_external, stale_external, ai_edge, tier_value,
  tier_of, classify_target, by_flag, by_edge, snapshot_flag, is_at,
}

-- The first tier is trusted no less than the second one.
abbrev pub NoLess : TrustTier → TrustTier → Type 0
NoLess owned_note t = Unit
NoLess user_annotation owned_note = ⊥
NoLess user_annotation user_annotation = Unit
NoLess user_annotation current_external = Unit
NoLess user_annotation stale_external = Unit
NoLess user_annotation ai_edge = Unit
NoLess current_external owned_note = ⊥
NoLess current_external user_annotation = ⊥
NoLess current_external current_external = Unit
NoLess current_external stale_external = Unit
NoLess current_external ai_edge = Unit
NoLess stale_external stale_external = Unit
NoLess stale_external ai_edge = Unit
NoLess stale_external _ = ⊥
NoLess ai_edge ai_edge = Unit
NoLess ai_edge _ = ⊥

pub NoLess-of : (s t : TrustTier) → tier_value s ≤ tier_value t → NoLess s t
NoLess-of s t h = ground (arith, h)

-- The row of a snapshot, with the row of its source.
pub record IsMirrored (st : Store) (i : Text) (s : SnapshotRow) (e : ExternalRow) : Type 0 where
  pub snapshot : find_snapshot i st.snapshots ≡ some s
  pub source : find_external s.external_id st.externals ≡ some e

abbrev pub IsKnown : Store → Text → Type 0
IsKnown st i = (s : SnapshotRow) × (e : ExternalRow) × IsMirrored st i s e

abbrev pub IsHead : Store → Text → Type 0
IsHead st i =
    (s : SnapshotRow) × (e : ExternalRow) × IsMirrored st i s e × (e.head_snapshot_id ≡ some i)

abbrev pub IsOld : Store → Text → Type 0
IsOld st i =
    (s : SnapshotRow) × (e : ExternalRow) × IsMirrored st i s e × (e.head_snapshot_id ≢ some i)

abbrev pub IsNoVersion : Store → Text → Type 0
IsNoVersion st i = find_version i st.db.versions ≡ none

-- What each tier says of a hit's version and of the link that it was reached by.
abbrev pub IsPlaced : Store → Text → Option Text → Option TrustTier → Type 0
IsPlaced st i link none = (link ≡ none) × IsNoVersion st i × ¬ IsKnown st i
IsPlaced st i link (some owned_note) =
    (link ≡ none) × ((v : VersionRow) × (find_version i st.db.versions ≡ some v))
IsPlaced st i link (some user_annotation) = (link ≡ some (codes "user")) × ¬ IsKnown st i
IsPlaced st i link (some current_external) =
    ((link ≡ none) × IsNoVersion st i × IsHead st i)
    ⊎ (((source : Text) × (link ≡ some source)) × IsKnown st i)
IsPlaced st i link (some stale_external) = (link ≡ none) × IsNoVersion st i × IsOld st i
IsPlaced st i link (some ai_edge) =
    ((source : Text) × (link ≡ some source) × (source ≢ codes "user")) × ¬ IsKnown st i

-- What the dict of the snapshots holds at a key.
abbrev Flagged : Store → Text → Option Bool → Type 0
Flagged st i none = ¬ IsKnown st i
Flagged st i (some true) = IsHead st i
Flagged st i (some false) = IsOld st i

Flagged-head :
    (st : Store) (i : Text) (s : SnapshotRow) (e : ExternalRow) (o : Option Text)
    → IsMirrored st i s e
    → e.head_snapshot_id ≡ o
    → Flagged st i (some (is_at i o))
Flagged-head st i s e none m at = (s, e, m, λ h. cc (h, at))
Flagged-head st i s e (some j) m at = elim (Bool-cases (str_eq i j)) [
  | inl same ↦ rw same (s, e, m, at ∙ ap some (sym ((str_eq_iff i j).0 same)))
  | inr other ↦
      rw other (s, e, m, λ h. cc (other, (str_eq_iff i j).1 (some-injective i j (sym h ∙ at))))
]

snapshot_flag-Flagged : (st : Store) (i : Text) → Flagged st i (snapshot_flag st i)
unfolding snapshot_flag
snapshot_flag-Flagged st i = elim (Option-cases (find_snapshot i st.snapshots)) [
  | inl absent ↦ rw absent (λ k. cc (k.2.snapshot, absent))
  | inr (s, found) ↦ elim (Option-cases (find_external s.external_id st.externals)) [
    | inl lost ↦ rw (found, lost) (λ k. cc (k.2.snapshot, found, k.2.source, lost))
    | inr (e, there) ↦
        rw (found, there)
          (Flagged-head st i s e e.head_snapshot_id (record { snapshot = found; source = there })
            refl)
  ]
]

direct-IsPlaced :
    (st : Store) (i : Text) (f : Option Bool)
    → IsNoVersion st i
    → Flagged st i f
    → IsPlaced st i none (by_flag f)
direct-IsPlaced st i none absent flagged = (refl, absent, flagged)
direct-IsPlaced st i (some true) absent flagged = inl (refl, absent, flagged)
direct-IsPlaced st i (some false) absent flagged = (refl, absent, flagged)

IsKnown-of : (st : Store) (i : Text) (b : Bool) → Flagged st i (some b) → IsKnown st i
IsKnown-of st i true (s, e, m, at) = (s, e, m)
IsKnown-of st i false (s, e, m, at) = (s, e, m)

linked-IsPlaced :
    (st : Store) (i source : Text) (f : Option Bool)
    → Flagged st i f
    → IsPlaced st i (some source) (some (by_edge f source))
linked-IsPlaced st i source (some b) flagged = inr ((source, refl), IsKnown-of st i b flagged)
linked-IsPlaced st i source none flagged = elim (Bool-cases (str_eq source (codes "user"))) [
  | inl by_user ↦ rw by_user (ap some ((str_eq_iff source (codes "user")).0 by_user), flagged)
  | inr by_ai ↦
      rw by_ai ((source, refl, λ e. cc (by_ai, (str_eq_iff source (codes "user")).1 e)), flagged)
]

pub tier_of-IsPlaced :
    (st : Store) (i : Text) (link : Option Text) → IsPlaced st i link (tier_of st i link)
unfolding tier_of classify_target
tier_of-IsPlaced st i (some source) =
    linked-IsPlaced st i source (snapshot_flag st i) (snapshot_flag-Flagged st i)
tier_of-IsPlaced st i none = elim (Option-cases (find_version i st.db.versions)) [
  | inl absent ↦
      rw (absent, classify_target)
        (direct-IsPlaced st i (snapshot_flag st i) absent (snapshot_flag-Flagged st i))
  | inr (v, found) ↦ rw (found, classify_target) (refl, (v, found))
]
