-- ===== src/Queue/Statuses.antt =====
-- The statements of internal/queue/store.go that write no position: a table stays one, and at most
-- one row is current.
use raspi_media_player.Base.{
  ℕ, suc, ℤ, pos, String, Bool, false, ◌≡◌, ◌≢◌, ◌≤◌, refl, sym, ap, subst, ◌∙◌, List, [], ◌∷◌, map,
  All, Pairwise, count, Distinct, Bool-cases, inl, inr, if◌then◌else◌, arith,
}
use raspi_media_player.Queue.Rows.{Row, ItemStatus, queued, current}
use raspi_media_player.Queue.Table.{order_by_position}
use raspi_media_player.Queue.Playing.{is_current, update_where, status_row}
use raspi_media_player.Queue.Sorting.{KeepsOrder, order_by_position-map}
use raspi_media_player.Queue.Numbering.{restamp}
use raspi_media_player.Queue.Wellformed.{IsTable}

-- The change leaves the columns with constraints alone.
pub record KeepsKeys (f : Row → Row) : Type 0 where
  pub keeps_id : (r : Row) → (f r).id ≡ r.id
  pub keeps_url : (r : Row) → (f r).source_url ≡ r.source_url
  pub keeps_position : (r : Row) → (f r).position ≡ r.position

positions : List Row → List ℤ
positions = map (λ r. r.position)

restamp-of_positions :
    (i : ℕ) (rows : List Row)
    → map (λ r. r.position) rows ≡ map (λ r. r.position) (restamp i rows)
    → rows ≡ restamp i rows
restamp-of_positions i [] h = refl
restamp-of_positions i (r ∷ rows) h =
    let own : r.position ≡ pos i = cc in
    let rest = restamp-of_positions (suc i) rows (cc) in λ k. record r { position = own k } ∷ rest k

positions-restamp-map :
    (f : Row → Row) (i : ℕ) (rows : List Row)
    → map (λ r. r.position) (restamp i (map f rows)) ≡ map (λ r. r.position) (restamp i rows)
positions-restamp-map f i [] = refl
positions-restamp-map f i (r ∷ rows) = ap (◌∷◌ (pos i)) (positions-restamp-map f (suc i) rows)

module _ (f : Row → Row) (keeps : KeepsKeys f) where
  pub map-column {ℓ} :
      {A : Type ℓ} (g : Row → A)
      → ((r : Row) → g (f r) ≡ g r)
      → (rows : List Row) → map g (map f rows) ≡ map g rows
  map-column g h [] = refl
  map-column g h (r ∷ rows) = λ k. h r k ∷ map-column g h rows k

  all_keep_order : (rows : List Row) → Pairwise (KeepsOrder f) rows
  all_keep_order [] = tt
  all_keep_order (r ∷ rows) = (each r rows, all_keep_order rows)
    where
      each : (r : Row) (rows : List Row) → All (KeepsOrder f r) rows
      each r [] = tt
      each r (s ∷ rows) =
          (rw (keeps.keeps_position r, keeps.keeps_position s) (refl, refl), each r rows)

  pub order_by_position-update :
      (rows : List Row) → order_by_position (map f rows) ≡ map f (order_by_position rows)
  order_by_position-update rows = order_by_position-map f rows (all_keep_order rows)

  -- Such a change of the rows leaves a table.
  pub map-IsTable : {rows : List Row} → IsTable rows → IsTable (map f rows)
  map-IsTable {rows} t =
      let sorted = order_by_position rows in
      let same_positions =
        map-column (λ r. r.position) keeps.keeps_position sorted
        ∙ ap (map (λ r. r.position)) t.numbered
        ∙ sym (positions-restamp-map f 0 sorted) in
      record {
        ids_differ = subst Distinct (sym (map-column (λ r. r.id) keeps.keeps_id rows)) t.ids_differ;
        urls_differ =
            subst Distinct (sym (map-column (λ r. r.source_url) keeps.keeps_url rows))
              t.urls_differ;
        numbered =
            let update = order_by_position-update rows in
            update
            ∙ restamp-of_positions 0 (map f sorted) same_positions
            ∙ ap (restamp 0) (sym update);
      }

module _ (test : Row → Bool) (f : Row → Row) (keeps : KeepsKeys f) where
  pub update_where-KeepsKeys : KeepsKeys (λ r. if test r then f r else r)
  update_where-KeepsKeys = record {
    keeps_id =
        λ r. elim (Bool-cases (test r)) [ inl e ↦ rw e (keeps.keeps_id r) | inr e ↦ rw e refl ];
    keeps_url =
        λ r. elim (Bool-cases (test r)) [ inl e ↦ rw e (keeps.keeps_url r) | inr e ↦ rw e refl ];
    keeps_position = λ r. elim (Bool-cases (test r)) [
      | inl e ↦ rw e (keeps.keeps_position r)
      | inr e ↦ rw e refl
    ];
  }

  pub update_where-IsTable : {rows : List Row} → IsTable rows → IsTable (update_where test f rows)
  update_where-IsTable t = map-IsTable (λ r. if test r then f r else r) update_where-KeepsKeys t

pub status_row-KeepsKeys :
    (status : ItemStatus) (error : String) → KeepsKeys (status_row status error)
status_row-KeepsKeys status error = record {
  keeps_id = λ r. refl;
  keeps_url = λ r. refl;
  keeps_position = λ r. refl;
}

-- A change that makes no row current makes none more current.
pub update_where-count_le :
    (test : Row → Bool) (f : Row → Row)
    → ((r : Row) → is_current (f r) ≡ false)
    → (rows : List Row) → count is_current (update_where test f rows) ≤ count is_current rows
update_where-count_le test f h [] = omega arith
update_where-count_le test f h (r ∷ rows) =
    let rest = update_where-count_le test f h rows in
    elim (Bool-cases (test r)) [
      | inl e ↦ rw (e, h r) (ground (arith, rest))
      | inr e ↦ rw e (ground (arith, rest))
    ]

-- `SetCurrent` leaves exactly the rows that its second statement hits.
pub count-after_reset :
    (error : String) (rows : List Row)
    → count is_current (update_where is_current (status_row queued error) rows) ≡ 0
count-after_reset error [] = refl
count-after_reset error (r ∷ rows) =
    let rest = count-after_reset error rows in
    elim (Bool-cases (is_current r)) [ inl e ↦ rw e rest | inr e ↦ rw (e, e) rest ]

pub count-set_current :
    (test : Row → Bool) (error : String) (rows : List Row)
    → count is_current rows ≡ 0
    → count is_current (update_where test (status_row current error) rows) ≡ count test rows
count-set_current test error [] h = refl
count-set_current test error (r ∷ rows) h = elim (Bool-cases (is_current r)) [
  | inl e ↦ absurd (impossible (count is_current rows) (rw e at h))
  | inr e ↦
      let rest = count-set_current test error rows (rw e at h) in
      elim (Bool-cases (test r)) [ inl hit ↦ rw hit (ap suc rest) | inr miss ↦ rw (miss, e) rest ]
]
  where
    impossible : (n : ℕ) → suc n ≢ 0
    impossible n h = omega arith
