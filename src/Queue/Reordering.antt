-- ===== src/Queue/Reordering.antt =====
-- `Reorder` of internal/queue/store.go: the ids arrange the rows, or the call is refused.
use mathlib.Core.Path.{fun_ext}
use raspi_media_player.Base.{
  ℕ, suc, ℤ, pos, negsuc, String, Bool, true, false, ◌≡◌, ◌≢◌, refl, sym, ap, subst, ◌∙◌, List, [],
  ◌∷◌, ◌&&◌, map, All, All-imp, All-map, map_fuse, count, count-map, Distinct, Bool-cases, inl, inr,
  if◌then◌else◌, ◌==◌, complement, arith,
}
use raspi_media_player.Queue.Rows.{Row, ok, err, not_found}
use raspi_media_player.Queue.Table.{ids, has_id, update_positions, mark_ids}
use raspi_media_player.Queue.Updates.{place, not-is_taken, update_positions-present}
use raspi_media_player.Queue.Numbering.{final_position, IsBelow, IsBelow-ne, IsBelow-suc}

-- A row after the loop of `Reorder`: its new position, as a negative number.
abbrev pub marked : ℕ → List String → Row → Row
marked i xs r = record r {
  position = complement (final_position i xs r.id (complement r.position));
}

pub complement_twice : (p : ℤ) → complement (complement p) ≡ p
complement_twice (pos n) = refl
complement_twice (negsuc n) = refl

marked-nil : (i : ℕ) (rows : List Row) → map (marked i []) rows ≡ rows
marked-nil i [] = refl
marked-nil i (r ∷ rows) =
    λ k. record r { position = complement_twice r.position k } ∷ marked-nil i rows k

complement_if :
    (b : Bool) (i : ℕ) (p : ℤ)
    → complement (if b then negsuc i else p) ≡ (if b then pos i else complement p)
complement_if true i p = refl
complement_if false i p = refl

marked-place :
    (i : ℕ) (x : String) (xs : List String) (r : Row)
    → marked (suc i) xs (place x (negsuc i) r) ≡ marked i (x ∷ xs) r
marked-place i x xs r = λ k. record r {
  position =
      complement (final_position (suc i) xs r.id (complement_if (has_id x r) i r.position k));
}

place-IsBelow :
    (x : String) (i : ℕ) (r : Row)
    → IsBelow i (complement r.position)
    → IsBelow (suc i) (complement (place x (negsuc i) r).position)
place-IsBelow x i r h = elim (Bool-cases (has_id x r)) [
  | inl e ↦ rw e (omega arith)
  | inr e ↦ rw e (IsBelow-suc i (complement r.position) h)
]

IsBelow-not_marked : (i : ℕ) (p : ℤ) → IsBelow i (complement p) → p ≢ negsuc i
IsBelow-not_marked i p h = λ e. IsBelow-ne i (complement p) h (ap complement e)

abbrev pub all_found : List Row → List String → Bool
all_found rows [] = true
all_found rows (x ∷ xs) = (count (has_id x) rows == 1) && all_found rows xs

all_found-place :
    (x : String) (p : ℤ) (rows : List Row) (xs : List String)
    → all_found (map (place x p) rows) xs ≡ all_found rows xs
all_found-place x p rows [] = refl
all_found-place x p rows (y ∷ xs) =
    rw (count-map (has_id y) (place x p) rows, all_found-place x p rows xs) refl

-- The loop marks every row that an id names, or finds an id that names no row.
pub mark_ids_lem :
    (i : ℕ) (xs : List String) (rows : List Row)
    → Distinct (ids rows)
    → All (λ r. IsBelow i (complement r.position)) rows
    → mark_ids i xs rows
      ≡ (if all_found rows xs then ok (map (marked i xs) rows) else err not_found)
unfolding mark_ids
mark_ids_lem i [] rows d below = ap ok (sym (marked-nil i rows))
mark_ids_lem i (x ∷ xs) rows d below = elim (Bool-cases (count (has_id x) rows == 1)) [
  | inl found ↦
      let moved = map (place x (negsuc i)) rows in
      let kept : ids moved ≡ ids rows = map_fuse (place x (negsuc i)) (λ r. r.id) rows in
      let rest = mark_ids_lem (suc i) xs moved (subst Distinct (sym kept) d) (
        All-map (λ r. IsBelow (suc i) (complement r.position)) (place x (negsuc i)) rows
          (All-imp rows (λ r h. place-IsBelow x i r h) below)) in
      let fused : map (marked (suc i) xs) moved ≡ map (marked i (x ∷ xs)) rows =
        map_fuse (place x (negsuc i)) (marked (suc i) xs) rows
        ∙ ap (λ f. map f rows) (fun_ext (marked-place i x xs)) in
      rw (step, found)
        (rest
          ∙ ap (λ b. if b then ok (map (marked (suc i) xs) moved) else err not_found)
              (all_found-place x (negsuc i) rows xs)
          ∙ ap (λ l. if all_found rows xs then ok l else err not_found) fused)
  | inr missing ↦ rw (step, missing) refl
]
  where
    step : update_positions (has_id x) (λ _. negsuc i) [] rows ≡ ok (map (place x (negsuc i)) rows)
    step = update_positions-present x (negsuc i) [] rows d refl (
        not-is_taken (negsuc i) rows
          (All-imp rows (λ r h. IsBelow-not_marked i r.position h) below))
