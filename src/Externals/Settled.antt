-- ===== src/Externals/Settled.antt =====
-- The columns of an external source that the first write of externals.py settles.
use lode.Prelude.{
  Text, Bool, true, false, List, [], ◌∷◌, Option, none, some, ◌≡◌, ◌≢◌, refl, str_eq, str_eq_ne,
  if◌then◌else◌, All,
}
use lode.Hashing.{Hashers}
use lode.Schema.{ExternalRow}
use lode.Versions.{Settings}
use lode.Egress.{Pattern}
use lode.Store.{Store}
use lode.Externals.{find_external, Fetched, dedup, move_to_snapshot, ingest_snapshot}
use lode.Externals.Fetch.{dead_letter, refresh_dead_letter_hook, set_no_egress}
use lode.Externals.Tables.{
  find_external-insert_external, find_external-move_head, find_external-flag_external, with_head,
  or_new,
}
use lode.Externals.Ends.{upserted, ingest-elim, gate-elim, externals-dedup}
use lode.Externals.Requests.{Request, ingests, dies, flags, gates, step, run}
use mathlib.Core.Option

pub record IsOf (e e' : ExternalRow) : Type 0 where
  pub same_type : e'.source_type ≡ e.source_type
  pub same_base : e'.api_base ≡ e.api_base
  pub same_flag : e'.no_egress ≡ e.no_egress

abbrev pub IsSettled : ExternalRow → Option ExternalRow → Type 0
IsSettled e none = ⊥
IsSettled e (some e') = IsOf e e'

IsSettled-moved :
    (e : ExternalRow) (i : Text) (b : Bool) (o : Option ExternalRow)
    → IsSettled e o
    → IsSettled e (if b then Option.map (with_head i) o else o)
IsSettled-moved e i b none u = absurd u
IsSettled-moved e i true (some x) u = record {
  same_type = u.same_type;
  same_base = u.same_base;
  same_flag = u.same_flag;
}
IsSettled-moved e i false (some x) u = u

IsSettled-upserted :
    (e new : ExternalRow) (b : Bool) (o : Option ExternalRow)
    → IsSettled e o
    → IsSettled e (if b then some (or_new new o) else o)
IsSettled-upserted e new b none u = absurd u
IsSettled-upserted e new true (some x) u = u
IsSettled-upserted e new false (some x) u = u

-- A request that does not flag the source.
abbrev pub Spares : Text → Request → Type 0
Spares k (ingests f) = Unit
Spares k (dies j error claim t) = Unit
Spares k (flags j b) = j ≢ k
Spares k (gates e now i) = Unit

module _ (h : Hashers) (settings : Settings) (patterns : List Pattern) (k : Text)
    (e : ExternalRow) where
  ingest-IsSettled :
      (f : Fetched) (st : Store)
      → IsSettled e (find_external k st.externals)
      → IsSettled e (find_external k (ingest_snapshot h settings patterns f st).1.externals)
  ingest-IsSettled f st u =
      ingest-elim h settings patterns (λ r. IsSettled e (find_external k r.1.externals)) f st
        (λ beat. up) (λ unbeaten failed. u) (λ i unbeaten hashed same. again i)
        (λ i unbeaten hashed other.
          unfold move_to_snapshot in
          rw
            (find_external-move_head k i f.external_id
              (upserted h settings patterns f st).externals)
            (IsSettled-moved e i (str_eq f.external_id k) _ up))
    where
      up : IsSettled e (find_external k (upserted h settings patterns f st).externals)
      up =
          rw
            (find_external-insert_external k settings f.external_id f.source_type none st.externals)
            (IsSettled-upserted e _ (str_eq f.external_id k) _ u)

      again :
          (i : Text)
          → IsSettled e (find_external k (dedup f i (upserted h settings patterns f st)).externals)
      again i = rw (externals-dedup f i (upserted h settings patterns f st)) up

  step-IsSettled :
      (st : Store) (r : Request)
      → Spares k r
      → IsSettled e (find_external k st.externals)
      → IsSettled e (find_external k (step h settings patterns st r).externals)
  unfolding step set_no_egress refresh_dead_letter_hook
  step-IsSettled st (ingests f) spare u = ingest-IsSettled f st u
  step-IsSettled st (dies j error claim t) spare u =
      ingest-IsSettled (dead_letter j error claim t st) st u
  step-IsSettled st (flags j b) spare u =
      rw (find_external-flag_external k j b st.externals, str_eq_ne j k spare) u
  step-IsSettled st (gates m now i) spare u =
      gate-elim (λ r. IsSettled e (find_external k r.externals)) m now i st u (λ s found. u)
        (λ annotations edges. u)

  IsSettled-run :
      (st : Store) (rs : List Request)
      → All (Spares k) rs
      → IsSettled e (find_external k st.externals)
      → IsSettled e (find_external k (run h settings patterns st rs).externals)
  unfolding run
  IsSettled-run st [] spare u = u
  IsSettled-run st (r ∷ rs) spare u =
      IsSettled-run (step h settings patterns st r) rs spare.1 (step-IsSettled st r spare.0 u)

-- Through any sequence of requests that does not flag it, a source stays in the table with its type,
-- its API base and its `no_egress` flag.
pub run-IsSettled :
    (h : Hashers) (settings : Settings) (patterns : List Pattern) (k : Text) (e : ExternalRow)
    (st : Store) (rs : List Request)
    → find_external k st.externals ≡ some e
    → All (Spares k) rs
    → IsSettled e (find_external k (run h settings patterns st rs).externals)
run-IsSettled h settings patterns k e st rs found spare =
    IsSettled-run h settings patterns k e st rs spare
      (rw found (record { same_type = refl; same_base = refl; same_flag = refl }))
