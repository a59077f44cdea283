-- ===== src/Queue/Shuffles.antt =====
-- A list of rows arranged otherwise, and the arrangement that a list of all ids gives.
use raspi_media_player.Base.{◌≡◌, refl, List, [], ◌∷◌, map, All, Pairwise}
use raspi_media_player.Queue.Rows.{Row}
use raspi_media_player.Queue.Table.{order_by_position, insert_row}
use raspi_media_player.Queue.Sorting.{IsAscending, Before, ltb_ℤ_asym}

-- The second list is the first with `r` put in somewhere.
pub data Inserted (r : Row) : List Row → List Row → Type 0 where
  here : {l : List Row} → Inserted r l (r ∷ l)
  there : {s : Row} {l m : List Row} → Inserted r l m → Inserted r (s ∷ l) (s ∷ m)

pub data Shuffle : List Row → List Row → Type 0 where
  done : Shuffle [] []
  put : {r : Row} {l m n : List Row} → Shuffle l m → Inserted r m n → Shuffle (r ∷ l) n

Inserted-map :
    (f : Row → Row) {r : Row} {l m : List Row} → Inserted r l m → Inserted (f r) (map f l) (map f m)
Inserted-map f here = here
Inserted-map f (there i) = there (Inserted-map f i)

pub Shuffle-map : (f : Row → Row) {l m : List Row} → Shuffle l m → Shuffle (map f l) (map f m)
Shuffle-map f done = done
Shuffle-map f (put s i) = put (Shuffle-map f s) (Inserted-map f i)

module _ (P : Row → Type 0) where
  Inserted-All : {r : Row} {l m : List Row} → Inserted r l m → All P m → P r × All P l
  Inserted-All here h = h
  Inserted-All (there i) h = let inner = Inserted-All i h.1 in (inner.0, (h.0, inner.1))

  pub Shuffle-All : {l m : List Row} → Shuffle l m → All P m → All P l
  Shuffle-All done h = tt
  Shuffle-All (put s i) h = let inner = Inserted-All i h in (inner.0, Shuffle-All s inner.1)

module _ (R : Row → Row → Type 0) (symmetric : (r s : Row) → R r s → R s r) where
  Inserted-Pairwise :
      {r : Row} {l m : List Row} → Inserted r l m → Pairwise R m → All (R r) l × Pairwise R l
  Inserted-Pairwise here h = h
  Inserted-Pairwise {r} (there {s = s} i) h =
      let inner = Inserted-Pairwise i h.1 in
      let outer = Inserted-All (R s) i h.0 in ((symmetric s r outer.0, inner.0), (outer.1, inner.1))

  pub Shuffle-Pairwise : {l m : List Row} → Shuffle l m → Pairwise R m → Pairwise R l
  Shuffle-Pairwise done h = tt
  Shuffle-Pairwise (put {r = r} {m = m} s i) h =
      let inner = Inserted-Pairwise i h in (Shuffle-All (R r) s inner.0, Shuffle-Pairwise s inner.1)

insert_row-Inserted :
    {r : Row} {l m : List Row} → Inserted r l m → IsAscending m → insert_row r l ≡ m
unfolding insert_row
insert_row-Inserted {r} (here {l = []}) a = refl
insert_row-Inserted {r} (here {l = s ∷ l}) a = rw (ltb_ℤ_asym r.position s.position a.0.0) refl
insert_row-Inserted {r} (there {s = s} i) a =
    rw ((Inserted-All (Before s) i a.0).0, insert_row-Inserted i a.1) refl

Inserted-IsAscending : {r : Row} {l m : List Row} → Inserted r l m → IsAscending m → IsAscending l
Inserted-IsAscending here a = a.1
Inserted-IsAscending (there {s = s} i) a =
    ((Inserted-All (Before s) i a.0).1, Inserted-IsAscending i a.1)

-- An ascending arrangement of the rows is the sorted one.
pub order_by_position-Shuffle :
    {l m : List Row} → Shuffle l m → IsAscending m → order_by_position l ≡ m
unfolding order_by_position
order_by_position-Shuffle done a = refl
order_by_position-Shuffle (put s i) a =
    rw (order_by_position-Shuffle s (Inserted-IsAscending i a)) (insert_row-Inserted i a)
