-- ===== src/Queue/Updates.antt =====
-- The statements of Queue/Table.antt succeed where no position is taken, and then they rewrite
-- each row by itself.
use raspi_media_player.Base.{
  ℤ, pos, negsuc, String, Bool, true, false, ◌≡◌, ◌≢◌, refl, sym, ap, subst, List, [], ◌∷◌, ◌||◌,
  inl, inr, map, eq_iff, same_ne, if◌then◌else◌, eqb_ℤ, complement, All, All-imp, Pairwise, Absent,
  Distinct, Bool-cases, arith,
}
use raspi_media_player.Queue.Rows.{Row, ok}
use raspi_media_player.Queue.Table.{update_positions, is_taken, ids, has_id, flip_positions}

-- One row under `UPDATE queue_items SET position = ? WHERE id = ?`.
abbrev pub place : String → ℤ → Row → Row
place id p r = record r { position = if has_id id r then p else r.position }

abbrev pub flip : Row → Row
flip r = record r { position = complement r.position }

-- The rows hold different positions.
abbrev pub PositionsDistinct : List Row → Type 0
PositionsDistinct = Pairwise (λ r s. s.position ≢ r.position)

update_positions-Absent :
    (id : String) (p : ℤ) (before rows : List Row)
    → Absent id (ids rows)
    → update_positions (has_id id) (λ _. p) before rows ≡ ok (map (place id p) rows)
unfolding update_positions
update_positions-Absent id p before [] h = refl
update_positions-Absent id p before (r ∷ rows) h =
    rw (same_ne r.id id h.0, update_positions-Absent id p (r ∷ before) rows h.1) refl

or_false : (a b : Bool) → (a || b) ≡ false → (a ≡ false) × (b ≡ false)
or_false a b h = ground arith

pub update_positions-present :
    (id : String) (p : ℤ) (before rows : List Row)
    → Distinct (ids rows)
    → is_taken p before ≡ false
    → is_taken p rows ≡ false
    → update_positions (has_id id) (λ _. p) before rows ≡ ok (map (place id p) rows)
unfolding update_positions
update_positions-present id p before [] d hb hr = refl
update_positions-present id p before (r ∷ rows) d hb hr = elim (Bool-cases (has_id id r)) [
  | inl e ↦
      let absent : Absent id (ids rows) =
        subst (λ t. Absent t (ids rows)) ((eq_iff r.id id).0 e) d.0 in
      rw
        (
          e,
          hb,
          (or_false (eqb_ℤ r.position p) (is_taken p rows) hr).1,
          update_positions-Absent id p (record r { position = p } ∷ before) rows absent,
        )
        refl
  | inr e ↦
      let taken = or_false (eqb_ℤ r.position p) (is_taken p rows) hr in
      rw (e, update_positions-present id p (r ∷ before) rows d.1 (rw (taken.0, hb) refl) taken.1)
        refl
]

pub eqb_ℤ_ne : (p q : ℤ) → p ≢ q → eqb_ℤ p q ≡ false
eqb_ℤ_ne (pos a) (pos b) h = ground (arith, λ (e : a ≡ b). h (ap pos e))
eqb_ℤ_ne (pos a) (negsuc b) h = refl
eqb_ℤ_ne (negsuc a) (pos b) h = refl
eqb_ℤ_ne (negsuc a) (negsuc b) h = ground (arith, λ (e : a ≡ b). h (ap negsuc e))

pub not-is_taken :
    (p : ℤ) (rows : List Row) → All (λ r. r.position ≢ p) rows → is_taken p rows ≡ false
not-is_taken p [] h = refl
not-is_taken p (r ∷ rows) h = rw (eqb_ℤ_ne r.position p h.0, not-is_taken p rows h.1) refl

-- Rows that all lie on one side of zero, and rows that all lie on the other.
abbrev pub IsPlaced : ℤ → Type 0
IsPlaced (pos n) = Unit
IsPlaced (negsuc n) = ⊥

abbrev pub IsMarked : ℤ → Type 0
IsMarked p = IsPlaced (complement p)

pub complement_ne : (p q : ℤ) → p ≢ q → complement q ≢ complement p
complement_ne (pos a) (pos b) h = λ e. h (ap complement (sym e))
complement_ne (pos a) (negsuc b) h = λ e. h (ap complement (sym e))
complement_ne (negsuc a) (pos b) h = λ e. h (ap complement (sym e))
complement_ne (negsuc a) (negsuc b) h = λ e. h (ap complement (sym e))

module _ (Side : ℤ → Type 0) (across : (p q : ℤ) → Side p → Side q → q ≢ complement p) where
  -- In the middle of a flip: the rows before the one at hand are flipped.
  flip_positions-from :
      (before rows : List Row)
      → All (λ r. Side r.position) rows
      → PositionsDistinct rows
      → All (λ b. All (λ r. b.position ≢ complement r.position) rows) before
      → update_positions (λ _. true) (λ r. complement r.position) before rows ≡ ok (map flip rows)
  unfolding update_positions
  flip_positions-from before [] s d free = refl
  flip_positions-from before (r ∷ rows) s d free =
      let target = complement r.position in
      let clear : is_taken target before ≡ false =
        not-is_taken target before (All-imp before (λ b h. h.0) free) in
      let clear' : is_taken target rows ≡ false =
        not-is_taken target rows (All-imp rows (λ q h. across r.position q.position s.0 h) s.1) in
      let next = flip_positions-from (record r { position = target } ∷ before) rows s.1 d.1 (
        All-imp rows (λ q h. complement_ne q.position r.position h) d.0,
        All-imp before (λ b h. h.1) free,
      ) in
      rw (clear, clear', next) refl

  pub flip_positions-side :
      (rows : List Row)
      → All (λ r. Side r.position) rows
      → PositionsDistinct rows
      → flip_positions rows ≡ ok (map flip rows)
  flip_positions-side rows s d = flip_positions-from [] rows s d tt

across_placed : (p q : ℤ) → IsPlaced p → IsPlaced q → q ≢ complement p
across_placed (pos a) (pos b) hp hq = λ e. cc
across_placed (pos a) (negsuc b) hp hq = absurd hq
across_placed (negsuc a) q hp hq = absurd hp

across_marked : (p q : ℤ) → IsMarked p → IsMarked q → q ≢ complement p
across_marked (negsuc a) (negsuc b) hp hq = λ e. cc
across_marked (negsuc a) (pos b) hp hq = absurd hq
across_marked (pos a) q hp hq = absurd hp

-- Rows in use can all be flipped by one statement.
pub flip_positions-placed :
    (rows : List Row)
    → All (λ r. IsPlaced r.position) rows
    → PositionsDistinct rows
    → flip_positions rows ≡ ok (map flip rows)
flip_positions-placed = flip_positions-side IsPlaced across_placed

-- And so can rows that are all marked.
pub flip_positions-marked :
    (rows : List Row)
    → All (λ r. IsMarked r.position) rows
    → PositionsDistinct rows
    → flip_positions rows ≡ ok (map flip rows)
flip_positions-marked = flip_positions-side IsMarked across_marked
