-- ===== src/Queue/Sorting.antt =====
-- `ORDER BY position`: a change of the rows that keeps the order of their positions commutes with
-- the sort, and rows with different positions come out strictly ascending.
use raspi_media_player.Base.{
  ℤ, pos, negsuc, true, false, ◌≡◌, ◌≢◌, refl, ap, List, [], ◌∷◌, map, All, All-imp, Pairwise,
  Bool-cases, inl, inr, ltb_ℤ, arith,
}
use raspi_media_player.Queue.Rows.{Row}
use raspi_media_player.Queue.Table.{insert_row, order_by_position}
use raspi_media_player.Queue.Updates.{PositionsDistinct}

abbrev pub Before : Row → Row → Type 0
Before r s = ltb_ℤ r.position s.position ≡ true

abbrev pub IsAscending : List Row → Type 0
IsAscending = Pairwise Before

pub ltb_ℤ_asym : (p q : ℤ) → ltb_ℤ p q ≡ true → ltb_ℤ q p ≡ false
ltb_ℤ_asym (pos a) (pos b) h = ground arith
ltb_ℤ_asym (pos a) (negsuc b) h = cc
ltb_ℤ_asym (negsuc a) (pos b) h = refl
ltb_ℤ_asym (negsuc a) (negsuc b) h = ground arith

pub ltb_ℤ_trans : (p q r : ℤ) → ltb_ℤ p q ≡ true → ltb_ℤ q r ≡ true → ltb_ℤ p r ≡ true
ltb_ℤ_trans (pos a) (pos b) (pos c) h k = ground arith
ltb_ℤ_trans (pos a) (pos b) (negsuc c) h k = cc
ltb_ℤ_trans (pos a) (negsuc b) r h k = cc
ltb_ℤ_trans (negsuc a) (pos b) (pos c) h k = refl
ltb_ℤ_trans (negsuc a) (pos b) (negsuc c) h k = cc
ltb_ℤ_trans (negsuc a) (negsuc b) (pos c) h k = refl
ltb_ℤ_trans (negsuc a) (negsuc b) (negsuc c) h k = ground arith

pub ltb_ℤ_total : (p q : ℤ) → p ≢ q → ltb_ℤ p q ≡ false → ltb_ℤ q p ≡ true
ltb_ℤ_total (pos a) (pos b) n h = ground (arith, λ (e : a ≡ b). n (ap pos e))
ltb_ℤ_total (pos a) (negsuc b) n h = refl
ltb_ℤ_total (negsuc a) (pos b) n h = cc
ltb_ℤ_total (negsuc a) (negsuc b) n h = ground (arith, λ (e : a ≡ b). n (ap negsuc e))

module _ (P : Row → Type 0) where
  All-insert_row : (r : Row) (rows : List Row) → P r → All P rows → All P (insert_row r rows)
  unfolding insert_row
  All-insert_row r [] h k = (h, tt)
  All-insert_row r (s ∷ rows) h k = elim (Bool-cases (ltb_ℤ s.position r.position)) [
    | inl e ↦ rw e (k.0, All-insert_row r rows h k.1)
    | inr e ↦ rw e (h, k)
  ]

  pub All-order_by_position : (rows : List Row) → All P rows → All P (order_by_position rows)
  unfolding order_by_position
  All-order_by_position [] h = tt
  All-order_by_position (r ∷ rows) h =
      All-insert_row r (order_by_position rows) h.0 (All-order_by_position rows h.1)

  All-of_insert_row : (r : Row) (rows : List Row) → All P (insert_row r rows) → P r × All P rows
  unfolding insert_row
  All-of_insert_row r [] h = (h.0, tt)
  All-of_insert_row r (s ∷ rows) h = elim (Bool-cases (ltb_ℤ s.position r.position)) [
    | inl e ↦
        let parts : P s × All P (insert_row r rows) = rw e at h in
        let inner = All-of_insert_row r rows parts.1 in (inner.0, (parts.0, inner.1))
    | inr e ↦ rw e at h
  ]

module _ (P : Row → Type 0) where
  pub All-of_order_by_position : (rows : List Row) → All P (order_by_position rows) → All P rows
  unfolding order_by_position
  All-of_order_by_position [] h = tt
  All-of_order_by_position (r ∷ rows) h =
      let parts = All-of_insert_row P r (order_by_position rows) h in
      (parts.0, All-of_order_by_position rows parts.1)

insert_row-IsAscending :
    (r : Row) (rows : List Row)
    → All (λ s. s.position ≢ r.position) rows
    → IsAscending rows
    → IsAscending (insert_row r rows)
unfolding insert_row
insert_row-IsAscending r [] n a = (tt, tt)
insert_row-IsAscending r (s ∷ rows) n a = elim (Bool-cases (ltb_ℤ s.position r.position)) [
  | inl e ↦ rw e (All-insert_row (Before s) r rows e a.0, insert_row-IsAscending r rows n.1 a.1)
  | inr e ↦
      let first : Before r s = ltb_ℤ_total s.position r.position n.0 e in
      rw e
        ((first, All-imp rows (λ t h. ltb_ℤ_trans r.position s.position t.position first h) a.0), a)
]

pub order_by_position-IsAscending :
    (rows : List Row) → PositionsDistinct rows → IsAscending (order_by_position rows)
unfolding order_by_position
order_by_position-IsAscending [] d = tt
order_by_position-IsAscending (r ∷ rows) d =
    insert_row-IsAscending r (order_by_position rows)
      (All-order_by_position (λ s. s.position ≢ r.position) rows d.0)
      (order_by_position-IsAscending rows d.1)

-- A symmetric relation between all rows of the sorted list holds between all rows.
module _ (R : Row → Row → Type 0) (symmetric : (r s : Row) → R r s → R s r) where
  insert_row-Pairwise :
      (r : Row) (rows : List Row)
      → All (R r) rows
      → Pairwise R rows
      → Pairwise R (insert_row r rows)
  unfolding insert_row
  insert_row-Pairwise r [] h k = (tt, tt)
  insert_row-Pairwise r (s ∷ rows) h k = elim (Bool-cases (ltb_ℤ s.position r.position)) [
    | inl e ↦
        rw e
          (All-insert_row (R s) r rows (symmetric r s h.0) k.0, insert_row-Pairwise r rows h.1 k.1)
    | inr e ↦ rw e (h, k)
  ]

  pub Pairwise-order_by_position :
      (rows : List Row) → Pairwise R rows → Pairwise R (order_by_position rows)
  unfolding order_by_position
  Pairwise-order_by_position [] h = tt
  Pairwise-order_by_position (r ∷ rows) h =
      insert_row-Pairwise r (order_by_position rows) (All-order_by_position (R r) rows h.0)
        (Pairwise-order_by_position rows h.1)

  Pairwise-of_insert_row :
      (r : Row) (rows : List Row)
      → Pairwise R (insert_row r rows)
      → All (R r) rows × Pairwise R rows
  unfolding insert_row
  Pairwise-of_insert_row r [] h = (tt, tt)
  Pairwise-of_insert_row r (s ∷ rows) h = elim (Bool-cases (ltb_ℤ s.position r.position)) [
    | inl e ↦
        let parts : All (R s) (insert_row r rows) × Pairwise R (insert_row r rows) = rw e at h in
        let inner = Pairwise-of_insert_row r rows parts.1 in
        let outer = All-of_insert_row (R s) r rows parts.0 in
        ((symmetric s r outer.0, inner.0), (outer.1, inner.1))
    | inr e ↦ rw e at h
  ]

  pub Pairwise-of_order_by_position :
      (rows : List Row) → Pairwise R (order_by_position rows) → Pairwise R rows
  unfolding order_by_position
  Pairwise-of_order_by_position [] h = tt
  Pairwise-of_order_by_position (r ∷ rows) h =
      let parts = Pairwise-of_insert_row r (order_by_position rows) h in
      (All-of_order_by_position (R r) rows parts.0, Pairwise-of_order_by_position rows parts.1)

-- `f` keeps the order of two rows, taken either way.
abbrev pub KeepsOrder : (Row → Row) → Row → Row → Type 0
KeepsOrder f r s =
    (ltb_ℤ (f r).position (f s).position ≡ ltb_ℤ r.position s.position)
    × (ltb_ℤ (f s).position (f r).position ≡ ltb_ℤ s.position r.position)

module _ (f : Row → Row) where
  insert_row-map :
      (r : Row) (rows : List Row)
      → All (KeepsOrder f r) rows
      → insert_row (f r) (map f rows) ≡ map f (insert_row r rows)
  unfolding insert_row
  insert_row-map r [] h = refl
  insert_row-map r (s ∷ rows) h = elim (Bool-cases (ltb_ℤ s.position r.position)) [
    | inl e ↦ rw (h.0.1, e, insert_row-map r rows h.1) refl
    | inr e ↦ rw (h.0.1, e) refl
  ]

  -- The sort commutes with a change that keeps the order of every two rows.
  pub order_by_position-map :
      (rows : List Row)
      → Pairwise (KeepsOrder f) rows
      → order_by_position (map f rows) ≡ map f (order_by_position rows)
  unfolding order_by_position
  order_by_position-map [] h = refl
  order_by_position-map (r ∷ rows) h =
      rw (order_by_position-map rows h.1) (
        insert_row-map r (order_by_position rows) (All-order_by_position (KeepsOrder f r) rows h.0))
