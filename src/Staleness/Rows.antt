-- ===== src/Staleness/Rows.antt =====
-- The loop of staleness.py over selected rows.
use lode.Prelude.{
  ℕ, ◌+◌, ◌≡◌, ◌≢◌, refl, sym, subst, ap, ◌∙◌, Bool, true, false, List, [], ◌∷◌, ◌==◌, map, length,
  if◌then◌else◌, All, arith, Bool-cases, inl, inr,
}
use lode.Schema.{AnchorStatus, fresh, stale, orphaned}
use lode.Staleness.{Counts, total, counted, select_rows, update_by_id, reanchor_rows}

module _ {Row : Type 0} (row_id : Row → ℕ) where
  -- `id` is a primary key.
  abbrev pub HasIds : List Row → Type 0
  HasIds [] = Unit
  HasIds (r ∷ rows) = All (λ w. row_id w ≢ row_id r) rows × HasIds rows

  pub map-HasIds :
      (f : Row → Row) (rows : List Row)
      → ((r : Row) → row_id (f r) ≡ row_id r)
      → HasIds rows
      → HasIds (map f rows)
  map-HasIds f [] same u = tt
  map-HasIds f (r ∷ rows) same (other, u) = (others rows other, map-HasIds f rows same u)
    where
      others :
          (ws : List Row)
          → All (λ w. row_id w ≢ row_id r) ws
          → All (λ w. row_id w ≢ row_id (f r)) (map f ws)
      others [] h = tt
      others (w ∷ ws) (h, hs) = ((λ e. h (sym (same w) ∙ e ∙ same r)), others ws hs)

  pub map_twice :
      (f : Row → Row) (rows : List Row)
      → ((r : Row) → f (f r) ≡ f r)
      → map f (map f rows) ≡ map f rows
  map_twice f [] idem = refl
  map_twice f (r ∷ rows) idem = cc (idem r, map_twice f rows idem)

  All-select_rows :
      (P : Row → Type 0) (test : Row → Bool) (rows : List Row)
      → All P rows
      → All P (select_rows row_id test rows)
  unfolding select_rows
  All-select_rows P test [] h = tt
  All-select_rows P test (r ∷ rows) (h, hs) = elim (Bool-cases (test r)) [
    | inl hit ↦ rw hit (h, All-select_rows P test rows hs)
    | inr miss ↦ rw miss (All-select_rows P test rows hs)
  ]

  update_by_id-miss :
      (k : ℕ) (set : Row → Row) (rows : List Row)
      → All (λ w. row_id w ≢ k) rows
      → update_by_id row_id k set rows ≡ rows
  unfolding update_by_id
  update_by_id-miss k set [] h = refl
  update_by_id-miss k set (r ∷ rows) (h, hs) = ground (arith, update_by_id-miss k set rows hs, h)

  id-false : (r w : Row) → row_id r ≢ row_id w → (row_id w == row_id r) ≡ false
  id-false r w ne = ground (arith, ne)

  id-true : (r : Row) → (row_id r == row_id r) ≡ true
  id-true r = ground arith

  module _ (status : Row → AnchorStatus) (write : AnchorStatus → Row → Row) where
    -- A row in front of the table that no selected row names stays there.
    reanchor_rows-front :
        (w : Row) (selected : List Row) (counts : Counts) (rows : List Row)
        → All (λ r. row_id r ≢ row_id w) selected
        → reanchor_rows row_id status write selected counts (w ∷ rows) ≡ (
          (reanchor_rows row_id status write selected counts rows).0,
          w ∷ (reanchor_rows row_id status write selected counts rows).1,
        )
    unfolding reanchor_rows
    reanchor_rows-front w [] counts rows h = refl
    reanchor_rows-front w (r ∷ selected) counts rows (h, hs) = rw (id-false r w h) (
        reanchor_rows-front w selected (counted (status r) counts)
          (update_by_id row_id (row_id r) (write (status r)) rows) hs)

    pub reanchor_rows_lem :
        (test : Row → Bool) (counts : Counts) (rows : List Row)
        → ((s : AnchorStatus) (r : Row) → row_id (write s r) ≡ row_id r)
        → HasIds rows
        → (reanchor_rows row_id status write (select_rows row_id test rows) counts rows).1
          ≡ map (λ r. if test r then write (status r) r else r) rows
    unfolding reanchor_rows select_rows
    reanchor_rows_lem test counts [] same u = refl
    reanchor_rows_lem test counts (r ∷ rows) same (other, u) = elim (Bool-cases (test r)) [
      | inl hit ↦
          rw hit (front-hit (reanchor_rows_lem test (counted (status r) counts) rows same u))
      | inr miss ↦ rw miss (
          ap (λ p. p.1)
            (reanchor_rows-front r (select_rows row_id test rows) counts rows
              (All-select_rows (λ w. row_id w ≢ row_id r) test rows other))
          ∙ ap (λ rest. r ∷ rest) (reanchor_rows_lem test counts rows same u))
    ]
      where
        new : Row
        new = write (status r) r

        after_first :
            (if row_id r == row_id r then new else r)
              ∷ update_by_id row_id (row_id r) (write (status r)) rows
            ≡ new ∷ rows
        after_first =
            rw (id-true r, update_by_id-miss (row_id r) (write (status r)) rows other) refl

        front-hit :
            (reanchor_rows row_id status write
                (select_rows row_id test rows)
                (counted (status r) counts)
                rows).1
              ≡ map (λ r. if test r then write (status r) r else r) rows
            → (reanchor_rows row_id status write
                (select_rows row_id test rows)
                (counted (status r) counts)
                ((if row_id r == row_id r then new else r)
                  ∷ update_by_id row_id (row_id r) (write (status r)) rows)).1
              ≡ new ∷ map (λ r. if test r then write (status r) r else r) rows
        front-hit rest_done =
            ap
              (λ t.
                (reanchor_rows row_id status write (select_rows row_id test rows)
                  (counted (status r) counts) t).1)
              after_first
            ∙ ap (λ p. p.1)
                (reanchor_rows-front new (select_rows row_id test rows) (counted (status r) counts)
                  rows
                  (subst (λ k. All (λ w. row_id w ≢ k) (select_rows row_id test rows))
                    (sym (same (status r) r))
                    (All-select_rows (λ w. row_id w ≢ row_id r) test rows other)))
            ∙ ap (λ rest. new ∷ rest) rest_done

    total-counted : (s : AnchorStatus) (c : Counts) → total (counted s c) ≡ total c + 1
    total-counted fresh c = omega arith
    total-counted stale c = omega arith
    total-counted orphaned c = omega arith

    pub total-reanchor_rows :
        (selected : List Row) (counts : Counts) (rows : List Row)
        → total (reanchor_rows row_id status write selected counts rows).0
          ≡ total counts + length selected
    unfolding reanchor_rows
    total-reanchor_rows [] counts rows = omega arith
    total-reanchor_rows (r ∷ selected) counts rows = omega (
      arith,
      total-reanchor_rows selected (counted (status r) counts)
          (update_by_id row_id (row_id r) (write (status r)) rows),
      total-counted (status r) counts,
    )
