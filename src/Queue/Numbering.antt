-- ===== src/Queue/Numbering.antt =====
-- `compact` of internal/queue/store.go: no statement of it fails, and it renumbers the rows from
-- 0 in the order they had.
use raspi_media_player.Base.{
  ℕ, suc, ℤ, pos, negsuc, String, true, false, ◌≡◌, ◌≢◌, ◌<◌, refl, sym, ap, ◌∙◌, List, [], ◌∷◌,
  map, All, All-imp, All-zip, All-map, All-of_map, Pairwise, Pairwise-map, Pairwise-of_map,
  map_fuse, Absent, Distinct, Bool-cases, inl, inr, if◌then◌else◌, ltb_ℤ, complement, same, same_ne,
  eq_refl, subst, arith,
}
use raspi_media_player.Queue.Rows.{Row, ok}
use raspi_media_player.Queue.Table.{order_by_position, ids, has_id, is_taken, number_ids, compact}
use raspi_media_player.Queue.Updates.{
  place, flip, PositionsDistinct, IsPlaced, not-is_taken, update_positions-present,
  flip_positions-placed,
}
use raspi_media_player.Queue.Sorting.{
  IsAscending, Before, KeepsOrder, ltb_ℤ_asym, order_by_position-IsAscending,
  Pairwise-of_order_by_position, Pairwise-order_by_position, order_by_position-map,
}

-- The position of a row after the loop that numbers ids from `i` on.
abbrev pub final_position : ℕ → List String → String → ℤ → ℤ
final_position i [] id p = p
final_position i (x ∷ xs) id p = final_position (suc i) xs id (if same id x then pos i else p)

abbrev pub stamp : ℕ → List String → Row → Row
stamp i xs r = record r { position = final_position i xs r.id r.position }

-- The rows numbered from `i` on.
abbrev pub restamp : ℕ → List Row → List Row
restamp i [] = []
restamp i (r ∷ rows) = record r { position = pos i } ∷ restamp (suc i) rows

-- Unplaced, or placed below `i`.
abbrev pub IsBelow : ℕ → ℤ → Type 0
IsBelow i (pos j) = j < i
IsBelow i (negsuc j) = Unit

pub IsBelow-ne : (i : ℕ) (p : ℤ) → IsBelow i p → p ≢ pos i
IsBelow-ne i (pos j) h = λ e. ground arith
IsBelow-ne i (negsuc j) h = λ e. cc

pub IsBelow-suc : (i : ℕ) (p : ℤ) → IsBelow i p → IsBelow (suc i) p
IsBelow-suc i (pos j) h = omega arith
IsBelow-suc i (negsuc j) h = tt

place-IsBelow :
    (id : String) (i : ℕ) (r : Row)
    → IsBelow i r.position
    → IsBelow (suc i) (place id (pos i) r).position
place-IsBelow id i r h = elim (Bool-cases (has_id id r)) [
  | inl e ↦ rw e (omega arith)
  | inr e ↦ rw e (IsBelow-suc i r.position h)
]

number_ids_lem :
    (i : ℕ) (xs : List String) (rows : List Row)
    → Distinct (ids rows)
    → All (λ r. IsBelow i r.position) rows
    → number_ids i xs rows ≡ ok (map (stamp i xs) rows)
unfolding number_ids
number_ids_lem i [] rows d below = ap ok (sym (map-id rows))
  where
    map-id : (rows : List Row) → map (λ (r : Row). r) rows ≡ rows
    map-id [] = refl
    map-id (r ∷ rows) = ap (◌∷◌ r) (map-id rows)
number_ids_lem i (x ∷ xs) rows d below =
    let clear : is_taken (pos i) rows ≡ false =
      not-is_taken (pos i) rows (All-imp rows (λ r h. IsBelow-ne i r.position h) below) in
    let kept : ids (map (place x (pos i)) rows) ≡ ids rows =
      map_fuse (place x (pos i)) (λ r. r.id) rows in
    let rest =
      number_ids_lem (suc i) xs (map (place x (pos i)) rows) (subst Distinct (sym kept) d) (
        All-map (λ r. IsBelow (suc i) r.position) (place x (pos i)) rows
          (All-imp rows (λ r h. place-IsBelow x i r h) below)) in
    rw (update_positions-present x (pos i) [] rows d refl clear)
      (rest ∙ ap ok (map_fuse (place x (pos i)) (stamp (suc i) xs) rows))

-- The rows after `compact`, written out.
abbrev pub renumber : List String → Row → Row
renumber order r = stamp 0 order (flip r)

abbrev pub renumbered : List Row → List Row
renumbered rows = map (renumber (ids (order_by_position rows))) rows

pub flip-IsBelow : (r : Row) → IsPlaced r.position → IsBelow 0 (complement r.position)
flip-IsBelow r h = placed r.position h
  where
    placed : (p : ℤ) → IsPlaced p → IsBelow 0 (complement p)
    placed (pos n) h = tt
    placed (negsuc n) h = absurd h

-- No statement of `compact` fails on rows with different ids and with different positions from 0 on,
-- and the rows are numbered by their order.
pub compact-ok :
    (rows : List Row)
    → Distinct (ids rows)
    → All (λ r. IsPlaced r.position) rows
    → PositionsDistinct rows
    → compact rows ≡ ok (renumbered rows)
unfolding compact
compact-ok rows d placed different =
    let order = ids (order_by_position rows) in
    let kept : ids (map flip rows) ≡ ids rows = map_fuse flip (λ r. r.id) rows in
    let numbers =
      number_ids_lem 0 order (map flip rows) (subst Distinct (sym kept) d)
        (All-map (λ r. IsBelow 0 r.position) flip rows (All-imp rows flip-IsBelow placed)) in
    rw (flip_positions-placed rows placed different)
      (numbers ∙ ap ok (map_fuse flip (stamp 0 order) rows))

final_position-Absent :
    (i : ℕ) (xs : List String) (id : String) (p : ℤ) → Absent id xs → final_position i xs id p ≡ p
final_position-Absent i [] id p h = refl
final_position-Absent i (x ∷ xs) id p h =
    rw (same_ne id x (λ e. h.0 (sym e))) (final_position-Absent (suc i) xs id p h.1)

module _ (xs : List String) (i : ℕ) (x : String) where
  skip_first :
      (rows : List Row)
      → Absent x (ids rows)
      → map (λ r. stamp i (x ∷ xs) (flip r)) rows ≡ map (λ r. stamp (suc i) xs (flip r)) rows
  skip_first [] h = refl
  skip_first (r ∷ rows) h = rw (same_ne r.id x h.0, skip_first rows h.1) refl

-- Numbered by their own order, the rows become 0, 1, 2, ….
pub stamp_self :
    (i : ℕ) (rows : List Row)
    → Distinct (ids rows)
    → map (λ r. stamp i (ids rows) (flip r)) rows ≡ restamp i rows
stamp_self i [] d = refl
stamp_self i (r ∷ rows) d =
    let number : final_position i (r.id ∷ ids rows) r.id (complement r.position) ≡ pos i =
      rw (eq_refl r.id, final_position)
        (final_position-Absent (suc i) (ids rows) r.id (pos i) d.0) in
    let others : map (λ s. stamp i (r.id ∷ ids rows) (flip s)) rows ≡ restamp (suc i) rows =
      skip_first (ids rows) i r.id rows d.0 ∙ stamp_self (suc i) rows d.1 in
    λ k. record r { position = number k } ∷ others k

restamp-after :
    (i j : ℕ) (rows : List Row)
    → i < j
    → All (λ s. ltb_ℤ (pos i) s.position ≡ true) (restamp j rows)
restamp-after i j [] h = tt
restamp-after i j (r ∷ rows) h = (ground arith, restamp-after i (suc j) rows (omega arith))

pub restamp-IsAscending : (i : ℕ) (rows : List Row) → IsAscending (restamp i rows)
restamp-IsAscending i [] = tt
restamp-IsAscending i (r ∷ rows) =
    (restamp-after i (suc i) rows (omega arith), restamp-IsAscending (suc i) rows)

-- A change after which ascending rows are ascending still keeps their order.
ascending-KeepsOrder :
    (f : Row → Row) (rows : List Row)
    → IsAscending rows
    → IsAscending (map f rows)
    → Pairwise (KeepsOrder f) rows
ascending-KeepsOrder f [] a b = tt
ascending-KeepsOrder f (r ∷ rows) a b = (
  All-zip rows
      (λ s h k. (
        k ∙ sym h,
        ltb_ℤ_asym (f r).position (f s).position k ∙ sym (ltb_ℤ_asym r.position s.position h),
      ))
      a.0 (All-of_map (Before (f r)) f rows b.0),
  ascending-KeepsOrder f rows a.1 b.1,
)

pub restamp-ids : (i : ℕ) (rows : List Row) → ids (restamp i rows) ≡ ids rows
restamp-ids i [] = refl
restamp-ids i (r ∷ rows) = ap (◌∷◌ r.id) (restamp-ids (suc i) rows)

pub Distinct-order_by_position :
    (rows : List Row) → Distinct (ids rows) → Distinct (ids (order_by_position rows))
Distinct-order_by_position rows d =
    Pairwise-map (λ s t. t ≢ s) (λ r. r.id) (order_by_position rows)
      (Pairwise-order_by_position (λ r s. s.id ≢ r.id) (λ r s h. λ e. h (sym e)) rows
        (Pairwise-of_map (λ s t. t ≢ s) (λ r. r.id) rows d))

-- For different ids and positions, the rows after `compact`, sorted, are the sorted rows of before,
-- numbered from 0.
pub order_by_position-renumbered :
    (rows : List Row)
    → Distinct (ids rows)
    → PositionsDistinct rows
    → order_by_position (renumbered rows) ≡ restamp 0 (order_by_position rows)
order_by_position-renumbered rows d different =
    let sorted = order_by_position rows in
    let f = renumber (ids sorted) in
    let stamped : map f sorted ≡ restamp 0 sorted =
      stamp_self 0 sorted (Distinct-order_by_position rows d) in
    let keeps =
      ascending-KeepsOrder f sorted (order_by_position-IsAscending rows different)
        (subst IsAscending (sym stamped) (restamp-IsAscending 0 sorted)) in
    order_by_position-map f rows
      (Pairwise-of_order_by_position (KeepsOrder f) (λ r s h. (h.1, h.0)) rows keeps)
    ∙ stamped
