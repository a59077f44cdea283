-- ===== src/Queue/Permuting.antt =====
-- `Reorder` of internal/queue/store.go as a whole: it succeeds on the permutations of the queue's
-- ids and on nothing else, and then the queue has the order that was asked for.
use mathlib.Core.Path.{fun_ext}
use raspi_media_player.Base.{
  String, true, ◌≡◌, ◌≢◌, ◌⊎◌, refl, sym, ap, subst, ◌∙◌, List, [], ◌∷◌, map, All, All-imp, All-map,
  All-of_map, Pairwise-of_map, Pairwise-imp, Pairwise-map, map_fuse, length, Distinct, Bool-cases,
  inl, inr, ◌==◌, arith,
}
use raspi_media_player.Queue.Rows.{Row, ok, err, not_found}
use raspi_media_player.Queue.Table.{order_by_position, ids, flip_positions, reorder_rows}
use raspi_media_player.Queue.Updates.{
  flip, PositionsDistinct, IsPlaced, IsMarked, complement_ne, flip_positions-marked,
}
use raspi_media_player.Queue.Numbering.{
  renumber, restamp, restamp-ids, restamp-IsAscending, stamp_self, flip-IsBelow,
}
use raspi_media_player.Queue.Wellformed.{
  IsSparse, IsTable, restamp-IsPlaced, ascending-PositionsDistinct, restamp-restamp,
}
use raspi_media_player.Queue.Shuffles.{
  Shuffle, Shuffle-map, Shuffle-All, Shuffle-Pairwise, order_by_position-Shuffle,
}
use raspi_media_player.Queue.Arrangements.{IsFound, arrange}
use raspi_media_player.Queue.Reordering.{marked, complement_twice, all_found, mark_ids_lem}

all_found-All :
    (rows : List Row) (order : List String) → all_found rows order ≡ true → All (IsFound rows) order
all_found-All rows [] h = tt
all_found-All rows (x ∷ order) h = (ground arith, all_found-All rows order (ground arith))

All-all_found :
    (rows : List Row) (order : List String) → All (IsFound rows) order → all_found rows order ≡ true
All-all_found rows [] h = refl
All-all_found rows (x ∷ order) h = rw (h.0, All-all_found rows order h.1) refl

flip-marked_row : (order : List String) (r : Row) → flip (marked 0 order r) ≡ renumber order r
flip-marked_row order r =
    λ k. record r { position = complement_twice (renumber order r).position k }

-- The ids name every row once.
pub record IsPermutation (order : List String) (rows : List Row) : Type 0 where
  pub different : Distinct order
  pub found : All (IsFound rows) order
  pub as_many : length order ≡ length rows

module _ {order : List String} {rows : List Row} (s : IsSparse rows)
    (p : IsPermutation order rows) where
  -- Arranged and numbered, the rows are those of the table under their new positions.
  arranged : (m : List Row) × Shuffle (map (renumber order) rows) (restamp 0 m) × (ids m ≡ order)
  arranged =
      let (m, shuffle, named) = arrange rows order p.different p.found p.as_many in
      let numbered : map (renumber order) m ≡ restamp 0 m =
        subst (λ o. map (renumber o) m ≡ restamp 0 m) named
          (stamp_self 0 m (subst Distinct (sym named) p.different)) in
      (
        m,
        subst (Shuffle (map (renumber order) rows)) numbered (Shuffle-map (renumber order) shuffle),
        named,
      )

  arranged-IsPlaced : All (λ r. IsPlaced r.position) (map (renumber order) rows)
  arranged-IsPlaced =
      Shuffle-All (λ r. IsPlaced r.position) arranged.1 (restamp-IsPlaced 0 arranged.0)

  arranged_different : PositionsDistinct (map (renumber order) rows)
  arranged_different =
      Shuffle-Pairwise (λ r q. q.position ≢ r.position) (λ r q h e. h (sym e)) arranged.1
        (ascending-PositionsDistinct (restamp 0 arranged.0) (restamp-IsAscending 0 arranged.0))

  -- The marked rows can all be flipped, which gives the arranged rows.
  flip-marked : flip_positions (map (marked 0 order) rows) ≡ ok (map (renumber order) rows)
  flip-marked =
      let sides : All (λ r. IsMarked r.position) (map (marked 0 order) rows) =
        All-map (λ r. IsMarked r.position) (marked 0 order) rows
          (All-imp rows
            (λ r h. subst IsPlaced (sym (complement_twice (renumber order r).position)) h)
            (All-of_map (λ r. IsPlaced r.position) (renumber order) rows arranged-IsPlaced)) in
      let apart : PositionsDistinct (map (marked 0 order) rows) =
        Pairwise-map (λ r q. q.position ≢ r.position) (marked 0 order) rows
          (Pairwise-imp rows
            (λ r q h.
              complement_ne (renumber order r).position (renumber order q).position
                (λ e. h (sym e)))
            (Pairwise-of_map (λ r q. q.position ≢ r.position) (renumber order) rows
              arranged_different)) in
      flip_positions-marked (map (marked 0 order) rows) sides apart
      ∙ ap ok (map_fuse (marked 0 order) flip rows)
      ∙ ap (λ f. ok (map f rows)) (fun_ext (flip-marked_row order))

  -- The ids of the whole queue, each once, arrange it.
  pub reorder_rows-ok :
      (rows' : List Row) × (reorder_rows order rows ≡ ok rows')
      × (ids (order_by_position rows') ≡ order)
      × IsTable rows'
      × (rows' ≡ map (renumber order) rows)
  unfolding reorder_rows
  reorder_rows-ok =
      let sorted = order_by_position-Shuffle arranged.1 (restamp-IsAscending 0 arranged.0) in
      (
        map (renumber order) rows,
        rw
            (
              same_length,
              mark_ids_lem 0 order rows s.ids_differ (All-imp rows flip-IsBelow s.placed),
              All-all_found rows order p.found,
            )
            flip-marked,
        ap ids sorted ∙ restamp-ids 0 arranged.0 ∙ arranged.2,
        record {
          ids_differ =
              subst Distinct (sym (map_fuse (renumber order) (λ r. r.id) rows)) s.ids_differ;
          urls_differ =
              subst Distinct (sym (map_fuse (renumber order) (λ r. r.source_url) rows))
                s.urls_differ;
          numbered = sorted ∙ sym (ap (restamp 0) sorted ∙ restamp-restamp 0 arranged.0);
        },
        refl,
      )
    where
      same_length : (length order == length rows) ≡ true
      same_length = ground (arith, p.as_many)

-- A list of different ids names every row once, or it is refused.
pub reorder_rows_cases :
    (order : List String) (rows : List Row)
    → IsSparse rows
    → Distinct order
    → IsPermutation order rows ⊎ (reorder_rows order rows ≡ err not_found)
unfolding reorder_rows
reorder_rows_cases order rows s d = elim (Bool-cases (length order == length rows)) [
  | inl same_length ↦ elim (Bool-cases (all_found rows order)) [
    | inl found ↦
        inl
          (record { different = d; found = all_found-All rows order found; as_many = ground arith })
    | inr missing ↦ inr (
        rw
          (
            same_length,
            mark_ids_lem 0 order rows s.ids_differ (All-imp rows flip-IsBelow s.placed),
            missing,
          )
          refl)
  ]
  | inr other_length ↦ inr (rw other_length refl)
]

pub reorder_rows-refused :
    (order : List String) (rows : List Row)
    → IsSparse rows
    → Distinct order
    → ¬ IsPermutation order rows
    → reorder_rows order rows ≡ err not_found
reorder_rows-refused order rows s d h = elim (reorder_rows_cases order rows s d) [
  | inl p ↦ absurd (h p)
  | inr refused ↦ refused
]
