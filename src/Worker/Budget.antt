-- ===== src/Worker/Budget.antt =====
-- The budget of failed polls of a batch in worker.py.
use lode.Prelude.{
  ℕ, suc, ◌+◌, ◌≤◌, ◌<◌, Text, Bool, true, false, List, [], ◌∷◌, map, ◌≡◌, refl, sym, ap, ◌∙◌,
  subst, not, ◌||◌, ◌&&◌, none, leb, if◌then◌else◌, any, all, length, All, arith, Bool-cases, inl,
  inr, ◌⊎◌,
}
use lode.Jobs.{JobRow, update_where}
use lode.Worker.Batch.{
  Polled, poll_raises, collect_handles, on_handle, bumped, to_batch_dead, collect_error,
  most_failures, record_batch_collect_failure,
}

-- A poll of the batch that raises, after it has committed some of the batch's results: `settles` is
-- what these commits make of each row.
pub record RaisedPoll : Type 0 where
  pub error : Text
  pub settles : JobRow → JobRow

abbrev pub raising : RaisedPoll → Text → List JobRow → Polled
raising p b js = record { poll = poll_raises p.error; jobs = map p.settles js; outcomes = [] }

-- The results that `collect_enrich_batch` commits end the run of their jobs, and it writes no others.
abbrev pub IsSettling : Text → RaisedPoll → Type 0
IsSettling b p = (j : JobRow) → on_handle b (p.settles j) ≡ true → p.settles j ≡ j

-- The loop of `_batch_collect_enrich` over the handle, in one pass after the other.
unfoldable pub fail_all : ℕ → Text → List RaisedPoll → List JobRow → List JobRow
unfolding collect_handles
fail_all budget b [] js = js
fail_all budget b (p ∷ ps) js =
    fail_all budget b ps (collect_handles (raising p) budget (b ∷ []) 0 none js []).jobs

abbrev pub counted : Text → JobRow → JobRow
counted b j = if on_handle b j then bumped j else j

-- A row after polls that were tolerated: settled, or else counted.
unfoldable pub tolerated : Text → List RaisedPoll → JobRow → JobRow
tolerated b [] j = j
tolerated b (p ∷ ps) j = tolerated b ps (counted b (p.settles j))

-- The count of each row on the handle has a bound.
abbrev pub is_low : Text → ℕ → JobRow → Bool
is_low b m j = not (on_handle b j) || leb j.batch_collect_failures m

abbrev is_high : Text → ℕ → JobRow → Bool
is_high b m j = not (on_handle b j) || leb m j.batch_collect_failures

module _ (b : Text) where
  bump : List JobRow → List JobRow
  bump js = (update_where (on_handle b) bumped js).0

  any-bump : (js : List JobRow) → any (on_handle b) (bump js) ≡ any (on_handle b) js
  unfolding bump update_where any
  any-bump [] = refl
  any-bump (j ∷ js) = ground (arith, any-bump js)

  any-dead :
      (error : Text) (js : List JobRow)
      → any (on_handle b) (update_where (on_handle b) (to_batch_dead error) js).0 ≡ false
  unfolding update_where any
  any-dead error [] = refl
  any-dead error (j ∷ js) = ground (arith, any-dead error js)

  bump-high :
      (m : ℕ) (js : List JobRow)
      → all (is_high b m) js ≡ true
      → all (is_high b (suc m)) (bump js) ≡ true
  unfolding bump update_where all
  bump-high m [] h = refl
  bump-high m (j ∷ js) h = ground (arith, h, bump-high m js)

  bump-low :
      (m : ℕ) (js : List JobRow)
      → all (is_low b m) js ≡ true
      → all (is_low b (suc m)) (bump js) ≡ true
  unfolding bump update_where all
  bump-low m [] h = refl
  bump-low m (j ∷ js) h = ground (arith, h, bump-low m js)

  high-most :
      (m : ℕ) (js : List JobRow)
      → all (is_high b m) js ≡ true
      → any (on_handle b) js ≡ true
      → m ≤ most_failures b js
  unfolding all any most_failures
  high-most m [] h there = absurd (cc there)
  high-most m (j ∷ js) h there = ground (arith, h, there, high-most m js)

  low-most : (m : ℕ) (js : List JobRow) → all (is_low b m) js ≡ true → most_failures b js ≤ m
  unfolding all most_failures
  low-most m [] h = omega arith
  low-most m (j ∷ js) h = ground (arith, h, low-most m js)

  bump-counted : (js : List JobRow) → bump js ≡ map (counted b) js
  unfolding bump update_where
  bump-counted [] = refl
  bump-counted (j ∷ js) = ground (arith, bump-counted js)

  tolerated-map :
      (p : RaisedPoll) (ps : List RaisedPoll) (js : List JobRow)
      → map (tolerated b ps) (map (counted b) (map p.settles js)) ≡ map (tolerated b (p ∷ ps)) js
  unfolding tolerated
  tolerated-map p ps [] = refl
  tolerated-map p ps (j ∷ js) =
      ap (λ xs. tolerated b ps (counted b (p.settles j)) ∷ xs) (tolerated-map p ps js)

  tolerated-none : (js : List JobRow) → js ≡ map (tolerated b []) js
  unfolding tolerated
  tolerated-none [] = refl
  tolerated-none (j ∷ js) = ap (λ xs. j ∷ xs) (tolerated-none js)

  -- A bound on the rows of the handle outlasts the commits of a poll, and no row comes to the handle.
  settles-all :
      (q : JobRow → Bool) (p : RaisedPoll) (js : List JobRow)
      → IsSettling b p
      → all (λ j. not (on_handle b j) || q j) js ≡ true
      → all (λ j. not (on_handle b j) || q j) (map p.settles js) ≡ true
  unfolding all
  settles-all q p [] s h = refl
  settles-all q p (j ∷ js) s h = elim (Bool-cases (on_handle b (p.settles j))) [
    | inl on ↦
        subst
          (λ x.
            ((not (on_handle b x) || q x)
              && all (λ i. not (on_handle b i) || q i) (map p.settles js))
            ≡ true)
          (sym (s j on)) (ground (arith, h, settles-all q p js s))
    | inr off ↦ rw off (ground (arith, h, settles-all q p js s))
  ]

  settles-none :
      (p : RaisedPoll) (js : List JobRow)
      → IsSettling b p
      → any (on_handle b) js ≡ false
      → any (on_handle b) (map p.settles js) ≡ false
  unfolding any
  settles-none p [] s h = refl
  settles-none p (j ∷ js) s h = elim (Bool-cases (on_handle b (p.settles j))) [
    | inl on ↦
        let here : on_handle b j ≡ true = subst (λ x. on_handle b x ≡ true) (s j on) on in
        absurd (cc (rw here at h))
    | inr off ↦ rw off (ground (arith, h, settles-none p js s))
  ]

  high-zero : (js : List JobRow) → all (is_high b 0) js ≡ true
  unfolding all
  high-zero [] = refl
  high-zero (j ∷ js) = ground (arith, high-zero js)

  module _ (budget : ℕ) where
    failure-spent :
        (error : Text) (js : List JobRow)
        → leb budget (most_failures b (bump js)) ≡ true
        → any (on_handle b) (record_batch_collect_failure budget b error js) ≡ false
    unfolding record_batch_collect_failure bump
    failure-spent error js spent =
        rw spent (any-dead (collect_error (most_failures b (bump js)) error) (bump js))

    failure-left :
        (error : Text) (js : List JobRow)
        → leb budget (most_failures b (bump js)) ≡ false
        → record_batch_collect_failure budget b error js ≡ bump js
    unfolding record_batch_collect_failure bump
    failure-left error js left = rw left refl

    none_stays :
        (ps : List RaisedPoll) (js : List JobRow)
        → All (IsSettling b) ps
        → any (on_handle b) js ≡ false
        → any (on_handle b) (fail_all budget b ps js) ≡ false
    unfolding fail_all
    none_stays [] js s h = h
    none_stays (p ∷ ps) js s h =
        let settled = map p.settles js in
        none_stays ps (record_batch_collect_failure budget b p.error settled) s.1
          (elim (Bool-cases (leb budget (most_failures b (bump settled)))) [
            | inl spent ↦ failure-spent p.error settled spent
            | inr left ↦
                ap (any (on_handle b)) (failure-left p.error settled left)
                ∙ (any-bump settled ∙ settles-none p js s.0 h)
          ])

    runs_out :
        (m : ℕ) (ps : List RaisedPoll) (js : List JobRow)
        → All (IsSettling b) ps
        → all (is_high b m) js ≡ true
        → m < budget
        → budget ≤ m + length ps
        → any (on_handle b) (fail_all budget b ps js) ≡ false
    unfolding fail_all
    runs_out m [] js s high below enough = absurd (omega (arith, below, enough))
    runs_out m (p ∷ ps) js s high below enough =
        let settled = map p.settles js in
        let next = record_batch_collect_failure budget b p.error settled in
        let high' =
          bump-high m settled (settles-all (λ j. leb m j.batch_collect_failures) p js s.0 high) in
        elim (Bool-cases (leb budget (most_failures b (bump settled)))) [
          | inl spent ↦ none_stays ps next s.1 (failure-spent p.error settled spent)
          | inr left ↦ elim (Bool-cases (any (on_handle b) settled)) [
            | inr none_left ↦ none_stays ps next s.1 (
                ap (any (on_handle b)) (failure-left p.error settled left)
                ∙ (any-bump settled ∙ none_left))
            | inl there ↦
                subst (λ x. any (on_handle b) (fail_all budget b ps x) ≡ false)
                  (sym (failure-left p.error settled left))
                  (runs_out (suc m) ps (bump settled) s.1 high'
                    (ground (
                      arith,
                      left,
                      high-most (suc m) (bump settled) high' (any-bump settled ∙ there),
                    ))
                    (omega (arith, enough)))
          ]
        ]

    each_tolerated :
        (m : ℕ) (ps : List RaisedPoll) (js : List JobRow)
        → All (IsSettling b) ps
        → all (is_low b m) js ≡ true
        → m + length ps < budget
        → fail_all budget b ps js ≡ map (tolerated b ps) js
    unfolding fail_all
    each_tolerated m [] js s low below = tolerated-none js
    each_tolerated m (p ∷ ps) js s low below =
        let settled = map p.settles js in
        let low' =
          bump-low m settled (settles-all (λ j. leb j.batch_collect_failures m) p js s.0 low) in
        let left : leb budget (most_failures b (bump settled)) ≡ false =
          ground (arith, below, low-most (suc m) (bump settled) low') in
        ap (fail_all budget b ps) (failure-left p.error settled left)
        ∙ (each_tolerated (suc m) ps (bump settled) s.1 low' (omega (arith, below))
            ∙ (ap (map (tolerated b ps)) (bump-counted settled) ∙ tolerated-map p ps js))

  -- The polls of a batch raise in one pass after the other, each after commits of results that end the
  -- run of their jobs. The budget is positive, and each running job of the batch starts from a count
  -- of zero. While fewer polls than the budget have raised, each job is what those commits made of it, with the polls counted
  -- that found it still running on the batch; and once as many have raised as the budget allows, no
  -- job is left running on the batch.
  pub fail_all_lem :
      (budget : ℕ) (ps : List RaisedPoll) (js : List JobRow)
      → 0 < budget
      → All (IsSettling b) ps
      → all (is_low b 0) js ≡ true
      → ((length ps < budget) × (fail_all budget b ps js ≡ map (tolerated b ps) js))
        ⊎ ((budget ≤ length ps) × (any (on_handle b) (fail_all budget b ps js) ≡ false))
  fail_all_lem budget ps js positive s low = elim (Bool-cases (leb budget (length ps))) [
    | inl spent ↦
        let enough : budget ≤ length ps = ground (arith, spent) in
        inr (enough, runs_out budget 0 ps js s (high-zero js) positive (omega (arith, enough)))
    | inr left ↦
        let below : length ps < budget = ground (arith, left) in
        inl (below, each_tolerated budget 0 ps js s low (omega (arith, below)))
  ]
