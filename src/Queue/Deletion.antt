-- ===== src/Queue/Deletion.antt =====
-- `Remove`, `Skip` and `Clear` of internal/queue/store.go: what is left, in which order.
use raspi_media_player.Base.{
  ℕ, Bool, true, false, not, ◌≡◌, ◌≢◌, refl, sym, ap, ◌∙◌, List, [], ◌∷◌, All, All-imp, All-keep,
  keep, count, Bool-cases, inl, inr, ltb_ℤ, ◌==◌, arith,
}
use raspi_media_player.Queue.Rows.{Row, ok, err, not_found}
use raspi_media_player.Queue.Table.{order_by_position, insert_row}
use raspi_media_player.Queue.Store.{delete_and_compact}
use raspi_media_player.Queue.Updates.{PositionsDistinct}
use raspi_media_player.Queue.Sorting.{
  IsAscending, ltb_ℤ_asym, ltb_ℤ_total, ltb_ℤ_trans, order_by_position-IsAscending,
  All-order_by_position,
}
use raspi_media_player.Queue.Numbering.{restamp, renumbered, order_by_position-renumbered}
use raspi_media_player.Queue.Wellformed.{
  IsTable, IsTable-IsSparse, keep-IsSparse, renumbered-IsTable, compact-IsSparse,
}

insert_row-first :
    (r : Row) (rows : List Row)
    → All (λ s. ltb_ℤ s.position r.position ≡ false) rows
    → insert_row r rows ≡ r ∷ rows
unfolding insert_row
insert_row-first r [] h = refl
insert_row-first r (s ∷ rows) h = rw h.0 refl

module _ (p : Row → Bool) where
  insert_row-keep_in :
      (r : Row) (rows : List Row)
      → p r ≡ true
      → All (λ s. s.position ≢ r.position) rows
      → IsAscending rows
      → keep p (insert_row r rows) ≡ insert_row r (keep p rows)
  unfolding insert_row
  insert_row-keep_in r [] h n a = rw h refl
  insert_row-keep_in r (s ∷ rows) h n a = elim (Bool-cases (ltb_ℤ s.position r.position)) [
    | inl e ↦ elim (Bool-cases (p s)) [
      | inl k ↦ rw (e, k, insert_row-keep_in r rows h n.1 a.1, e) refl
      | inr k ↦ rw (e, k, insert_row-keep_in r rows h n.1 a.1) refl
    ]
    | inr e ↦
        let first = ltb_ℤ_total s.position r.position n.0 e in
        let later =
          All-imp rows
            (λ t b.
              ltb_ℤ_asym r.position t.position
                (ltb_ℤ_trans r.position s.position t.position first b))
            a.0 in
        rw (e, h)
          (sym (
            insert_row-first r (keep p (s ∷ rows))
              (All-keep (λ t. ltb_ℤ t.position r.position ≡ false) p (s ∷ rows) (e, later))))
  ]

  insert_row-keep_out :
      (r : Row) (rows : List Row) → p r ≡ false → keep p (insert_row r rows) ≡ keep p rows
  unfolding insert_row
  insert_row-keep_out r [] h = rw h refl
  insert_row-keep_out r (s ∷ rows) h = elim (Bool-cases (ltb_ℤ s.position r.position)) [
    | inl e ↦ rw (e, insert_row-keep_out r rows h) refl
    | inr e ↦ rw (e, h) refl
  ]

  -- The sort commutes with a deletion.
  pub order_by_position-keep :
      (rows : List Row)
      → PositionsDistinct rows
      → order_by_position (keep p rows) ≡ keep p (order_by_position rows)
  unfolding order_by_position
  order_by_position-keep [] d = refl
  order_by_position-keep (r ∷ rows) d = elim (Bool-cases (p r)) [
    | inl e ↦
        rw (e, order_by_position, order_by_position-keep rows d.1)
          (sym (
            insert_row-keep_in r (order_by_position rows) e
              (All-order_by_position (λ s. s.position ≢ r.position) rows d.0)
              (order_by_position-IsAscending rows d.1)))
    | inr e ↦
        rw (e, order_by_position-keep rows d.1)
          (sym (insert_row-keep_out r (order_by_position rows) e))
  ]

-- After a deletion of some row of a table: no error, the rows of before without the deleted ones, in their
-- order, numbered from 0; a table again.
pub delete_and_compact-ok :
    (test : Row → Bool) (rows : List Row)
    → IsTable rows
    → count test rows ≢ 0
    → (rows' : List Row) × (delete_and_compact test rows ≡ ok rows')
      × (order_by_position rows' ≡ restamp 0 (keep (λ r. not (test r)) (order_by_position rows)))
      × IsTable rows'
unfolding delete_and_compact
delete_and_compact-ok test rows t some_row =
    let left = keep (λ r. not (test r)) rows in
    let sparse = keep-IsSparse (λ r. not (test r)) (IsTable-IsSparse t) in
    (
      renumbered left,
      rw (count_ne (count test rows) some_row, compact-IsSparse sparse) refl,
      order_by_position-renumbered left sparse.ids_differ sparse.positions_differ
          ∙ ap (restamp 0) (
              order_by_position-keep (λ r. not (test r)) rows
                (IsTable-IsSparse t).positions_differ),
      renumbered-IsTable sparse,
    )
  where
    count_ne : (n : ℕ) → n ≢ 0 → (n == 0) ≡ false
    count_ne n h = ground arith

-- A deletion that finds no row is an error, and the rollback leaves the table.
pub delete_and_compact-missing :
    (test : Row → Bool) (rows : List Row)
    → count test rows ≡ 0
    → delete_and_compact test rows ≡ err not_found
unfolding delete_and_compact
delete_and_compact-missing test rows h = rw h refl
