-- ===== src/Queue/Sizes.antt =====
-- `ORDER BY position` of internal/queue/store.go: the sort keeps the number of rows.
use raspi_media_player.Base.{
  ℕ, suc, Bool, ◌≡◌, refl, ap, ◌∙◌, List, [], ◌∷◌, count, length, Bool-cases, inl, inr,
  if◌then◌else◌, ltb_ℤ, arith,
}
use raspi_media_player.Queue.Rows.{Row}
use raspi_media_player.Queue.Table.{order_by_position, insert_row}

module _ (test : Row → Bool) where
  count-insert_row :
      (r : Row) (rows : List Row) → count test (insert_row r rows) ≡ count test (r ∷ rows)
  unfolding insert_row
  count-insert_row r [] = refl
  count-insert_row r (s ∷ rows) = elim (Bool-cases (ltb_ℤ s.position r.position)) [
    | inl e ↦ rw (e, count-insert_row r rows) (swap (test s) (test r) (count test rows))
    | inr e ↦ rw e refl
  ]
    where
      swap :
          (a b : Bool) (n : ℕ)
          → (if a then suc (if b then suc n else n) else (if b then suc n else n))
            ≡ (if b then suc (if a then suc n else n) else (if a then suc n else n))
      swap a b n = ground arith

  -- The sort loses no row.
  pub count-order_by_position :
      (rows : List Row) → count test (order_by_position rows) ≡ count test rows
  unfolding order_by_position
  count-order_by_position [] = refl
  count-order_by_position (r ∷ rows) =
      count-insert_row r (order_by_position rows)
      ∙ ap (λ n. if test r then suc n else n) (count-order_by_position rows)

length-insert_row : (r : Row) (rows : List Row) → length (insert_row r rows) ≡ suc (length rows)
unfolding insert_row
length-insert_row r [] = refl
length-insert_row r (s ∷ rows) = elim (Bool-cases (ltb_ℤ s.position r.position)) [
  | inl e ↦ rw (e, length-insert_row r rows) refl
  | inr e ↦ rw e refl
]

pub length-order_by_position : (rows : List Row) → length (order_by_position rows) ≡ length rows
unfolding order_by_position
length-order_by_position [] = refl
length-order_by_position (r ∷ rows) =
    length-insert_row r (order_by_position rows) ∙ ap suc (length-order_by_position rows)
