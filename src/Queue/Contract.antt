-- ===== src/Queue/Contract.antt =====
-- The methods of internal/queue/store.go that clients call with a revision: what they return and
-- what the queue is afterwards, on every branch.
use raspi_media_player.Base.{
  ℕ, suc, pos, String, Bool, true, false, not, ◌≡◌, ◌≢◌, ◌+◌, refl, sym, ap, subst, ◌∙◌, List, [],
  ◌∷◌, All, All-imp, All-zip, count, keep, Distinct, Bool-cases, inl, inr, same, same_ne, eq_iff,
  ◌==◌, arith,
}
use raspi_media_player.Queue.Rows.{Row, Db, Snapshot, Result, ok, err, not_found, conflict}
use raspi_media_player.Queue.Table.{
  order_by_position, ids, has_id, is_seen, has_repeat, reorder_rows,
}
use raspi_media_player.Queue.Store.{
  snapshot, bump, mutate, delete_and_compact, remove, skip, is_first, reorder,
}
use raspi_media_player.Queue.Numbering.{restamp}
use raspi_media_player.Queue.Wellformed.{IsTable, IsTable-IsSparse}
use raspi_media_player.Queue.Sizes.{count-order_by_position}
use raspi_media_player.Queue.Deletion.{delete_and_compact-ok}
use raspi_media_player.Queue.Permuting.{IsPermutation, reorder_rows-ok, reorder_rows-refused}

-- The database after a successful change of the rows.
abbrev pub changed : Db → List Row → Db
changed db rows = bump (record db { items = rows })

-- The call succeeds: the rows are sorted as the list says, form a table, and the revision is one
-- higher; the snapshot is that of the new database.
abbrev pub Succeeds : Db → Result (Db × Snapshot) → List Row → Type 0
Succeeds db result sorted =
    (rows : List Row) × (result ≡ ok (changed db rows, snapshot (changed db rows)))
    × (order_by_position rows ≡ sorted)
    × IsTable rows

equal_test : (n : ℕ) → (n == n) ≡ true
equal_test n = ground arith

mutate-ok :
    (operation : List Row → Result (List Row)) (db : Db) (rows : List Row)
    → operation db.items ≡ ok rows
    → mutate db.state.revision operation db ≡ ok (changed db rows, snapshot (changed db rows))
unfolding mutate
mutate-ok operation db rows h = rw (equal_test db.state.revision, h) refl

-- A stale revision is refused whatever the operation, and nothing is written.
pub mutate-conflict :
    (expected : ℕ) (operation : List Row → Result (List Row)) (db : Db)
    → expected ≢ db.state.revision
    → mutate expected operation db ≡ err conflict
unfolding mutate
mutate-conflict expected operation db h = rw (other db.state.revision expected h) refl
  where
    other : (a b : ℕ) → b ≢ a → (a == b) ≡ false
    other a b h = ground arith

mutate-revision :
    (expected : ℕ) (operation : List Row → Result (List Row)) (db db' : Db) (s : Snapshot)
    → mutate expected operation db ≡ ok (db', s)
    → db'.state.revision ≡ expected + 1
unfolding mutate
mutate-revision expected operation db db' s h = ground arith

-- The loop over `seen` finds a repetition exactly where the ids are not all different.
not_seen :
    (seen order : List String)
    → has_repeat seen order ≡ false
    → All (λ x. is_seen x seen ≡ false) order × Distinct order
unfolding has_repeat
not_seen seen [] h = (tt, tt)
not_seen seen (x ∷ order) h =
    let rest = not_seen (x ∷ seen) order (ground arith) in
    (
      (ground arith, All-imp order (λ y k. (not_first x y seen k).1) rest.0),
      (
        All-imp order (λ y k p. cc ((not_first x y seen k).0, (eq_iff x y).1 (sym p))) rest.0,
        rest.1,
      ),
    )
  where
    not_first :
        (x y : String) (seen : List String)
        → is_seen y (x ∷ seen) ≡ false
        → (same x y ≡ false) × (is_seen y seen ≡ false)
    not_first x y seen k = ground arith

pub has_repeat-Distinct : (order : List String) → has_repeat [] order ≡ false → Distinct order
has_repeat-Distinct order h = (not_seen [] order h).1

no_repeat :
    (seen order : List String)
    → All (λ x. is_seen x seen ≡ false) order
    → Distinct order
    → has_repeat seen order ≡ false
unfolding has_repeat
no_repeat seen [] h d = refl
no_repeat seen (x ∷ order) h d = rw h.0 (
    no_repeat (x ∷ seen) order
      (All-zip order (λ y k n. rw (same_ne x y (λ p. n (sym p))) k) h.1 d.0) d.1)

Distinct-has_repeat : (order : List String) → Distinct order → has_repeat [] order ≡ false
Distinct-has_repeat order d = no_repeat [] order (none_seen order) d
  where
    none_seen : (order : List String) → All (λ x. is_seen x [] ≡ false) order
    none_seen [] = tt
    none_seen (x ∷ order) = (refl, none_seen order)

-- After a change at a revision has taken effect, the revision is one higher, and every other change
-- that carries the same revision is a conflict.
pub mutate_once :
    (expected : ℕ) (first second : List Row → Result (List Row)) (db db' : Db) (s : Snapshot)
    → mutate expected first db ≡ ok (db', s)
    → (db'.state.revision ≡ expected + 1) × (mutate expected second db' ≡ err conflict)
mutate_once expected first second db db' s h =
    let raised = mutate-revision expected first db db' s h in
    (raised, mutate-conflict expected second db' (omega arith))

skip_rest :
    (i : ℕ) (rows : List Row)
    → keep (λ r. not (is_first r)) (restamp (suc i) rows) ≡ restamp (suc i) rows
skip_rest i [] = refl
skip_rest i (r ∷ rows) =
    rw (not_zero i) (ap (◌∷◌ (record r { position = pos (suc i) })) (skip_rest (suc i) rows))
  where
    not_zero : (i : ℕ) → (suc i == 0) ≡ false
    not_zero i = ground arith

tail : List Row → List Row
tail [] = []
tail (r ∷ rows) = rows

pub skip_first :
    (sorted : List Row) (r : Row) (rest : List Row)
    → sorted ≡ restamp 0 sorted
    → sorted ≡ r ∷ rest
    → keep (λ r. not (is_first r)) sorted ≡ rest
unfolding tail
skip_first sorted r rest numbered e =
    let own : r ∷ rest ≡ restamp 0 (r ∷ rest) = subst (λ l. l ≡ restamp 0 l) e numbered in
    rw (numbered ∙ ap (restamp 0) e) (skip_rest 0 rest ∙ sym (ap tail own))

first_counted :
    (sorted : List Row) (r : Row) (rest : List Row)
    → sorted ≡ restamp 0 sorted
    → sorted ≡ r ∷ rest
    → count is_first sorted ≢ 0
first_counted sorted r rest numbered e = rw (numbered ∙ ap (restamp 0) e) (λ h. omega arith)

module _ (db : Db) (t : IsTable db.items) where
  delete-Succeeds :
      (test : Row → Bool)
      → count test db.items ≢ 0
      → Succeeds db
          (mutate db.state.revision (delete_and_compact test) db)
          (restamp 0 (keep (λ r. not (test r)) (order_by_position db.items)))
  delete-Succeeds test h =
      let (rows, done, sorted, table) = delete_and_compact-ok test db.items t h in
      (rows, mutate-ok (delete_and_compact test) db rows done, sorted, table)

  -- In a table, `Remove` at the current revision of an id in the queue takes out its row alone; the
  -- others keep their order and are numbered from 0, and the revision is one higher.
  pub remove-Succeeds :
      (id : String)
      → count (has_id id) db.items ≢ 0
      → Succeeds db
          (remove id db.state.revision db)
          (restamp 0 (keep (λ r. not (has_id id r)) (order_by_position db.items)))
  unfolding remove
  remove-Succeeds id h = delete-Succeeds (has_id id) h

  -- In a table, `Skip` at the current revision takes out the first row of a queue that is not empty,
  -- whatever the status of the row is; the others keep their order and are numbered from 0.
  pub skip-Succeeds :
      (r : Row) (rest : List Row)
      → order_by_position db.items ≡ r ∷ rest
      → Succeeds db (skip db.state.revision db) (restamp 0 rest)
  unfolding skip
  skip-Succeeds r rest e =
      let sorted = order_by_position db.items in
      let some_first : count is_first db.items ≢ 0 =
        subst (λ n. n ≢ 0) (count-order_by_position is_first db.items)
          (first_counted sorted r rest t.numbered e) in
      let (rows, done, order, table) = delete-Succeeds is_first some_first in
      (rows, done, order ∙ ap (restamp 0) (skip_first sorted r rest t.numbered e), table)

  -- In a table, `Reorder` at the current revision by a permutation of the ids succeeds, gives the queue
  -- that order, leaves a table, and raises the revision by one.
  pub reorder-Succeeds :
      (order : List String)
      → IsPermutation order db.items
      → (rows : List Row) × (reorder order db.state.revision db
          ≡ ok (changed db rows, snapshot (changed db rows)))
        × (ids (order_by_position rows) ≡ order)
        × IsTable rows
  unfolding reorder
  reorder-Succeeds order p =
      let (rows, done, sorted, table, form) = reorder_rows-ok (IsTable-IsSparse t) p in
      (
        rows,
        rw (Distinct-has_repeat order p.different) (mutate-ok (reorder_rows order) db rows done),
        sorted,
        table,
      )

  -- `Reorder` at the current revision by a list that is no permutation of the ids of a table finds
  -- nothing.
  pub reorder-refused :
      (order : List String)
      → ¬ IsPermutation order db.items
      → reorder order db.state.revision db ≡ err not_found
  unfolding reorder mutate
  reorder-refused order h = elim (Bool-cases (has_repeat [] order)) [
    | inl repeats ↦ rw repeats refl
    | inr single ↦
        rw
          (
            single,
            equal_test db.state.revision,
            reorder_rows-refused order db.items (IsTable-IsSparse t)
                (has_repeat-Distinct order single) h,
          )
          refl
  ]
