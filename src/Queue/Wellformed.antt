-- ===== src/Queue/Wellformed.antt =====
-- What holds of `queue_items` between two calls: different ids and urls, and positions 0, 1, 2, ….
use raspi_media_player.Base.{
  ℕ, suc, ℤ, pos, negsuc, String, Bool, true, false, ◌≡◌, ◌≢◌, refl, sym, ap, subst, ◌∙◌, List, [],
  ◌∷◌, map, All, All-imp, All-keep, Pairwise-map, Pairwise-of_map, Pairwise-keep, map_fuse, keep,
  Distinct, ltb_ℤ, arith,
}
use raspi_media_player.Queue.Rows.{Row, ok}
use raspi_media_player.Queue.Table.{order_by_position, ids, compact}
use raspi_media_player.Queue.Updates.{PositionsDistinct, IsPlaced}
use raspi_media_player.Queue.Sorting.{
  IsAscending, Before, Pairwise-of_order_by_position, All-of_order_by_position,
}
use raspi_media_player.Queue.Numbering.{
  restamp, renumber, renumbered, restamp-IsAscending, compact-ok, order_by_position-renumbered,
}

abbrev pub urls : List Row → List String
urls = map (λ r. r.source_url)

-- Sorted, the rows are numbered from 0.
abbrev pub IsNumbered : List Row → Type 0
IsNumbered rows = order_by_position rows ≡ restamp 0 (order_by_position rows)

pub record IsTable (rows : List Row) : Type 0 where
  pub ids_differ : Distinct (ids rows)
  pub urls_differ : Distinct (urls rows)
  pub numbered : IsNumbered rows

-- What `compact` needs: any subset of a table has it.
pub record IsSparse (rows : List Row) : Type 0 where
  pub ids_differ : Distinct (ids rows)
  pub urls_differ : Distinct (urls rows)
  pub placed : All (λ r. IsPlaced r.position) rows
  pub positions_differ : PositionsDistinct rows

pub restamp-IsPlaced : (i : ℕ) (rows : List Row) → All (λ r. IsPlaced r.position) (restamp i rows)
restamp-IsPlaced i [] = tt
restamp-IsPlaced i (r ∷ rows) = (tt, restamp-IsPlaced (suc i) rows)

ltb_ℤ_irrefl : (p : ℤ) → ltb_ℤ p p ≡ false
ltb_ℤ_irrefl (pos n) = ground arith
ltb_ℤ_irrefl (negsuc n) = ground arith

Before-ne : (r s : Row) → Before r s → s.position ≢ r.position
Before-ne r s h = λ e. cc (ltb_ℤ_irrefl r.position, subst (λ p. ltb_ℤ r.position p ≡ true) e h)

pub ascending-PositionsDistinct : (rows : List Row) → IsAscending rows → PositionsDistinct rows
ascending-PositionsDistinct [] a = tt
ascending-PositionsDistinct (r ∷ rows) a =
    (All-imp rows (λ s h. Before-ne r s h) a.0, ascending-PositionsDistinct rows a.1)

pub IsTable-IsSparse : {rows : List Row} → IsTable rows → IsSparse rows
IsTable-IsSparse {rows} t =
    let sorted = order_by_position rows in
    record {
      ids_differ = t.ids_differ;
      urls_differ = t.urls_differ;
      placed =
          All-of_order_by_position (λ r. IsPlaced r.position) rows
            (subst (All (λ r. IsPlaced r.position)) (sym t.numbered) (restamp-IsPlaced 0 sorted));
      positions_differ =
          Pairwise-of_order_by_position (λ r s. s.position ≢ r.position) (λ r s h e. h (sym e)) rows
            (ascending-PositionsDistinct sorted
              (subst IsAscending (sym t.numbered) (restamp-IsAscending 0 sorted)));
    }

keep-Distinct :
    (f : Row → String) (p : Row → Bool) (rows : List Row)
    → Distinct (map f rows)
    → Distinct (map f (keep p rows))
keep-Distinct f p rows h =
    Pairwise-map (λ s t. t ≢ s) f (keep p rows)
      (Pairwise-keep (λ r s. f s ≢ f r) p rows (Pairwise-of_map (λ s t. t ≢ s) f rows h))

pub keep-IsSparse : (p : Row → Bool) {rows : List Row} → IsSparse rows → IsSparse (keep p rows)
keep-IsSparse p {rows} s = record {
  ids_differ = keep-Distinct (λ r. r.id) p rows s.ids_differ;
  urls_differ = keep-Distinct (λ r. r.source_url) p rows s.urls_differ;
  placed = All-keep (λ r. IsPlaced r.position) p rows s.placed;
  positions_differ = Pairwise-keep (λ r s. s.position ≢ r.position) p rows s.positions_differ;
}

pub restamp-restamp : (i : ℕ) (rows : List Row) → restamp i (restamp i rows) ≡ restamp i rows
restamp-restamp i [] = refl
restamp-restamp i (r ∷ rows) =
    ap (◌∷◌ (record r { position = pos i })) (restamp-restamp (suc i) rows)

-- The rows that `compact` leaves are a table again, in the order of before.
pub renumbered-IsTable : {rows : List Row} → IsSparse rows → IsTable (renumbered rows)
renumbered-IsTable {rows} s =
    let order = ids (order_by_position rows) in
    let sorts = order_by_position-renumbered rows s.ids_differ s.positions_differ in
    record {
      ids_differ = subst Distinct (sym (map_fuse (renumber order) (λ r. r.id) rows)) s.ids_differ;
      urls_differ =
          subst Distinct (sym (map_fuse (renumber order) (λ r. r.source_url) rows)) s.urls_differ;
      numbered = sorts ∙ sym (ap (restamp 0) sorts ∙ restamp-restamp 0 (order_by_position rows));
    }

pub compact-IsSparse : {rows : List Row} → IsSparse rows → compact rows ≡ ok (renumbered rows)
compact-IsSparse {rows} s = compact-ok rows s.ids_differ s.placed s.positions_differ
