-- ===== src/Queue/Insertion.antt =====
-- `AddSourceTitled` of internal/queue/store.go: where the new row goes, and the errors.
use raspi_media_player.Base.{
  ℕ, zero, suc, ℤ, pos, negsuc, String, Bool, true, false, ◌≡◌, ◌≢◌, ◌<◌, ◌+◌, ◌≤◌, refl, sym, ap,
  subst, ◌∙◌, List, [], ◌∷◌, ◌++◌, map, All, All-imp, count, length, Distinct, Pairwise-map,
  Pairwise-of_map, Pairwise-append, Bool-cases, inl, inr, ltb_ℤ, eqb_ℤ, arith,
}
use raspi_media_player.Queue.Rows.{Row}
use raspi_media_player.Queue.Table.{order_by_position, insert_row, is_taken}
use raspi_media_player.Queue.Store.{max_position, next}
use raspi_media_player.Queue.Updates.{not-is_taken}
use raspi_media_player.Queue.Sorting.{ltb_ℤ_asym, All-of_order_by_position}
use raspi_media_player.Queue.Numbering.{restamp}
use raspi_media_player.Queue.Wellformed.{IsTable, IsNumbered}
use raspi_media_player.Queue.Sizes.{count-order_by_position, length-order_by_position}

abbrev AtMost : ℕ → Row → Type 0
AtMost m r = ltb_ℤ (pos m) r.position ≡ false

abbrev is_at : ℕ → Row → Bool
is_at m r = eqb_ℤ r.position (pos m)

restamp-AtMost :
    (m i : ℕ) (rows : List Row) → i + length rows ≤ suc m → All (AtMost m) (restamp i rows)
restamp-AtMost m i [] h = tt
restamp-AtMost m i (r ∷ rows) h = (ground arith, restamp-AtMost m (suc i) rows (omega arith))

restamp-is_at :
    (m i : ℕ) (rows : List Row) → i ≤ m → m < i + length rows → count (is_at m) (restamp i rows) ≢ 0
restamp-is_at m i [] h k = absurd (omega arith)
restamp-is_at m i (r ∷ rows) h k = ground (arith, restamp-is_at m (suc i) rows)

eqb_ℤ-eq : (p : ℤ) (m : ℕ) → eqb_ℤ p (pos m) ≡ true → p ≡ pos m
eqb_ℤ-eq (pos n) m h = ground arith
eqb_ℤ-eq (negsuc n) m h = cc

between : (p : ℤ) (m : ℕ) → ltb_ℤ p (pos m) ≡ false → ltb_ℤ (pos m) p ≡ false → p ≡ pos m
between (pos n) m h k = ground arith
between (negsuc n) m h k = cc

max_position-AtMost :
    (m : ℕ) (r : Row) (rows : List Row)
    → All (AtMost m) (r ∷ rows)
    → ltb_ℤ (pos m) (max_position (r ∷ rows)) ≡ false
max_position-AtMost m r [] h = h.0
max_position-AtMost m r (s ∷ rows) h =
    let rest = max_position-AtMost m s rows h.1 in
    elim (Bool-cases (ltb_ℤ (max_position (s ∷ rows)) r.position)) [
      | inl e ↦ rw e h.0
      | inr e ↦ rw e rest
    ]

max_position-is_at :
    (m : ℕ) (rows : List Row)
    → All (AtMost m) rows
    → count (is_at m) rows ≢ 0
    → max_position rows ≡ pos m
max_position-is_at m [] h k = absurd (k refl)
max_position-is_at m (r ∷ []) h k = elim (Bool-cases (is_at m r)) [
  | inl e ↦ eqb_ℤ-eq r.position m e
  | inr e ↦ absurd (k (rw e refl))
]
max_position-is_at m (r ∷ s ∷ rows) h k = elim (Bool-cases (is_at m r)) [
  | inl e ↦
      let top = eqb_ℤ-eq r.position m e in
      let rest = max_position (s ∷ rows) in
      elim (Bool-cases (ltb_ℤ rest r.position)) [
        | inl below ↦ rw below top
        | inr other ↦ rw other (
            between rest m (subst (λ p. ltb_ℤ rest p ≡ false) top other)
              (max_position-AtMost m s rows h.1))
      ]
  | inr e ↦ rw (max_position-is_at m (s ∷ rows) h.1 (rw e at k), h.0) refl
]

numbered_next :
    (n : ℕ) (rows : List Row)
    → length rows ≡ n
    → IsNumbered rows
    → next (max_position rows) ≡ pos (length rows)
numbered_next n [] e t = refl
numbered_next zero (r ∷ rows) e t = absurd (omega arith)
numbered_next (suc m) (r ∷ rows) e t =
    let table = r ∷ rows in
    let sorted = order_by_position table in
    let size : length sorted ≡ suc m = length-order_by_position table ∙ e in
    let low : All (AtMost m) table =
      All-of_order_by_position (AtMost m) table
        (subst (All (AtMost m)) (sym t) (restamp-AtMost m 0 sorted (omega arith))) in
    let some_at : count (is_at m) table ≢ 0 =
      subst (λ k. k ≢ 0) (ap (count (is_at m)) (sym t) ∙ count-order_by_position (is_at m) table)
        (restamp-is_at m 0 sorted (omega arith) (omega arith)) in
    rw (max_position-is_at m table low some_at) (ap pos (sym e))

-- `MAX(position) + 1` is the number of rows, in a table.
pub next-max_position :
    (rows : List Row) → IsNumbered rows → next (max_position rows) ≡ pos (length rows)
next-max_position rows t = numbered_next (length rows) rows refl t

insert_row-append :
    (r s : Row) (rows : List Row)
    → ltb_ℤ s.position r.position ≡ false
    → insert_row r (rows ++ s ∷ []) ≡ insert_row r rows ++ s ∷ []
unfolding insert_row
insert_row-append r s [] h = rw h refl
insert_row-append r s (t ∷ rows) h = elim (Bool-cases (ltb_ℤ t.position r.position)) [
  | inl e ↦ rw (e, insert_row-append r s rows h) refl
  | inr e ↦ rw e refl
]

-- A row with the highest position sorts to the end.
pub order_by_position-append :
    (rows : List Row) (s : Row)
    → All (λ r. ltb_ℤ r.position s.position ≡ true) rows
    → order_by_position (rows ++ s ∷ []) ≡ order_by_position rows ++ s ∷ []
unfolding order_by_position insert_row
order_by_position-append [] s h = refl
order_by_position-append (r ∷ rows) s h =
    rw (order_by_position-append rows s h.1)
      (insert_row-append r s (order_by_position rows) (ltb_ℤ_asym r.position s.position h.0))

restamp-append :
    (i : ℕ) (rows : List Row) (s : Row)
    → s.position ≡ pos (i + length rows)
    → restamp i (rows ++ s ∷ []) ≡ restamp i rows ++ s ∷ []
restamp-append i [] s e =
    let own : pos i ≡ s.position = ap pos (omega arith) ∙ sym e in
    λ k. record s { position = own k } ∷ []
restamp-append i (r ∷ rows) s e =
    ap (◌∷◌ (record r { position = pos i }))
      (restamp-append (suc i) rows s (e ∙ ap pos (omega arith)))

below_next : (p : ℤ) (m : ℕ) → ltb_ℤ (pos m) p ≡ false → ltb_ℤ p (pos (suc m)) ≡ true
below_next (pos n) m h = ground arith
below_next (negsuc n) m h = refl

numbered_below :
    (n : ℕ) (rows : List Row)
    → length rows ≡ n
    → IsNumbered rows
    → All (λ r. ltb_ℤ r.position (pos n) ≡ true) rows
numbered_below n [] e t = tt
numbered_below zero (r ∷ rows) e t = absurd (omega arith)
numbered_below (suc m) (r ∷ rows) e t =
    let table = r ∷ rows in
    let sorted = order_by_position table in
    let size : length sorted ≡ suc m = length-order_by_position table ∙ e in
    All-imp table (λ q h. below_next q.position m h)
      (All-of_order_by_position (AtMost m) table
        (subst (All (AtMost m)) (sym t) (restamp-AtMost m 0 sorted (omega arith))))

-- A new row under the next position goes behind all others, and leaves a table.
pub append-IsTable :
    (rows : List Row) (s : Row)
    → IsTable rows
    → s.position ≡ next (max_position rows)
    → All (λ r. r.id ≢ s.id) rows
    → All (λ r. r.source_url ≢ s.source_url) rows
    → (order_by_position (rows ++ s ∷ []) ≡ order_by_position rows ++ s ∷ [])
      × IsTable (rows ++ s ∷ [])
append-IsTable rows s t e fresh_id fresh_url =
    let at : s.position ≡ pos (length rows) = e ∙ next-max_position rows t.numbered in
    let below = numbered_below (length rows) rows refl t.numbered in
    let sorted =
      order_by_position-append rows s
        (subst (λ p. All (λ r. ltb_ℤ r.position p ≡ true) rows) (sym at) below) in
    let stamped =
      restamp-append 0 (order_by_position rows) s
        (at ∙ ap pos (omega (arith, length-order_by_position rows))) in
    (
      sorted,
      record {
        ids_differ = append_new (λ r. r.id) rows s t.ids_differ fresh_id;
        urls_differ = append_new (λ r. r.source_url) rows s t.urls_differ fresh_url;
        numbered =
            sorted ∙ ap (λ l. l ++ s ∷ []) t.numbered ∙ sym (ap (restamp 0) sorted ∙ stamped);
      },
    )
  where
    append_new :
        (f : Row → String) (rows : List Row) (s : Row)
        → Distinct (map f rows)
        → All (λ r. f r ≢ f s) rows
        → Distinct (map f (rows ++ s ∷ []))
    append_new f rows s d h =
        Pairwise-map (λ a b. b ≢ a) f (rows ++ s ∷ [])
          (Pairwise-append (λ r q. f q ≢ f r) rows s (Pairwise-of_map (λ a b. b ≢ a) f rows d)
            (All-imp rows (λ r n p. n (sym p)) h))

-- No row of a table holds the next position.
pub next-not_taken :
    (rows : List Row) → IsNumbered rows → is_taken (next (max_position rows)) rows ≡ false
next-not_taken rows t = rw (next-max_position rows t) (
    not-is_taken (pos (length rows)) rows (
      All-imp rows (λ r h. before_other r.position (length rows) h)
        (numbered_below (length rows) rows refl t)))
  where
    before_other : (p : ℤ) (n : ℕ) → ltb_ℤ p (pos n) ≡ true → p ≢ pos n
    before_other (pos m) n h = λ e. ground arith
    before_other (negsuc m) n h = λ e. cc
