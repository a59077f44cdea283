-- ===== src/Queue/Table.antt =====
-- internal/queue/store.go: the statements on `queue_items` that read or write positions, one row
-- after the other, with the table's UNIQUE(position); and the loops `compact` and `Reorder` run.
use raspi_media_player.Base.{
  ℕ, suc, ℤ, pos, negsuc, String, Bool, true, false, List, [], ◌∷◌, ◌||◌, ◌&&◌, map, count, length,
  same, ◌==◌, if◌then◌else◌, eqb_ℤ, ltb_ℤ, complement,
}
use raspi_media_player.Queue.Rows.{
  Row, Result, ok, err, ◌>>=◌, ◌>>◌, guard, unique_violation, not_found,
}

-- `ORDER BY position`
unfoldable pub insert_row : Row → List Row → List Row
insert_row r [] = r ∷ []
insert_row r (s ∷ rows) =
    let rest = insert_row r rows in if ltb_ℤ s.position r.position then s ∷ rest else r ∷ s ∷ rows

unfoldable pub order_by_position : List Row → List Row
unfolding insert_row
order_by_position [] = []
order_by_position (r ∷ rows) = insert_row r (order_by_position rows)

abbrev pub ids : List Row → List String
ids = map (λ r. r.id)

abbrev pub has_id : String → Row → Bool
has_id id r = same r.id id

abbrev pub is_taken : ℤ → List Row → Bool
is_taken p [] = false
is_taken p (r ∷ rows) = eqb_ℤ r.position p || is_taken p rows

-- `UPDATE queue_items SET position = … WHERE …`: the rows before the one at hand have their new
-- positions already, and a position that another row holds fails the statement.
unfoldable pub update_positions : (Row → Bool) → (Row → ℤ) → List Row → List Row → Result (List Row)
update_positions test value before [] = ok []
update_positions test value before (r ∷ rows) =
    let hit = test r in
    let moved = if hit then record r { position = value r } else r in
    let clash = hit && (is_taken (value r) before || is_taken (value r) rows) in
    let rest = update_positions test value (moved ∷ before) rows in
    if clash then err unique_violation else (rest >>= λ rows'. ok (moved ∷ rows'))

-- `UPDATE queue_items SET position = ? WHERE id = ?`
abbrev pub set_position : String → ℤ → List Row → Result (List Row)
set_position id p = update_positions (has_id id) (λ _. p) []

-- `UPDATE queue_items SET position = -position - 1`
abbrev pub flip_positions : List Row → Result (List Row)
flip_positions = update_positions (λ _. true) (λ r. complement r.position) []

-- The last loop of `compact`.
unfoldable pub number_ids : ℕ → List String → List Row → Result (List Row)
unfolding update_positions
number_ids i [] rows = ok rows
number_ids i (id ∷ rest) rows = do
  rows' ← set_position id (pos i) rows
  number_ids (suc i) rest rows'

unfoldable pub compact : List Row → Result (List Row)
unfolding update_positions order_by_position number_ids
compact rows = do flipped ← flip_positions rows; number_ids 0 (ids (order_by_position rows)) flipped

-- The loop of `Reorder`: `-(i + 1)` is the position, and exactly one row has to take it.
unfoldable pub mark_ids : ℕ → List String → List Row → Result (List Row)
unfolding update_positions
mark_ids i [] rows = ok rows
mark_ids i (id ∷ rest) rows = do
  rows' ← set_position id (negsuc i) rows
  guard (count (has_id id) rows == 1) not_found
  mark_ids (suc i) rest rows'

abbrev pub is_seen : String → List String → Bool
is_seen s [] = false
is_seen s (t ∷ ts) = same t s || is_seen s ts

-- The loop of `Reorder` over its map `seen`.
unfoldable pub has_repeat : List String → List String → Bool
has_repeat seen [] = false
has_repeat seen (id ∷ rest) = is_seen id seen || has_repeat (id ∷ seen) rest

-- `Reorder` inside its transaction.
unfoldable pub reorder_rows : List String → List Row → Result (List Row)
unfolding update_positions mark_ids
reorder_rows order rows = do
  guard (length order == length rows) not_found
  marked ← mark_ids 0 order rows
  flip_positions marked
