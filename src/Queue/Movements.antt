-- ===== src/Queue/Movements.antt =====
-- internal/queue/store.go: what each call of a listener that succeeds makes of the line of Queue/Line.
use raspi_media_player.Base.{
  ℕ, suc, String, Bool, not, ◌≡◌, ◌≢◌, refl, sym, ap, ◌∙◌, List, [], ◌∷◌, ◌++◌, All-imp, count,
  count-map, keep, length, Bool-cases, inl, inr, same, arith,
}
use raspi_media_player.Queue.Rows.{Row, Db, Result, ok}
use raspi_media_player.Queue.Table.{
  order_by_position, ids, has_id, has_repeat, reorder_rows, compact,
}
use raspi_media_player.Queue.Store.{
  mutate, delete_and_compact, remove, clear, skip, is_first, reorder, Addition,
}
use raspi_media_player.Queue.Numbering.{restamp, restamp-ids}
use raspi_media_player.Queue.Wellformed.{IsTable, IsTable-IsSparse}
use raspi_media_player.Queue.Sizes.{count-order_by_position, length-order_by_position}
use raspi_media_player.Queue.Deletion.{delete_and_compact-ok, delete_and_compact-missing}
use raspi_media_player.Queue.Permuting.{IsPermutation, reorder_rows_cases, reorder_rows-ok}
use raspi_media_player.Queue.Contract.{has_repeat-Distinct, skip_first}
use raspi_media_player.Queue.Admission.{admitted, admitted-sorted}
use raspi_media_player.Queue.Calls.{Call, adds, removes, clears, skips, reorders, database_of, run}
use raspi_media_player.Queue.Invariant.{mutate-WasChanged}
use raspi_media_player.Queue.Traces.{queue_ids}
use raspi_media_player.Queue.Line.{
  Line, line, is_named, Permutes, Accepts, rest, raised, others, moved,
}

pub line_eq : {l m : Line} → l.revision ≡ m.revision → l.ids ≡ m.ids → l ≡ m
line_eq p q = λ k. record { revision = p k; ids = q k }

ids-append : (rows : List Row) (r : Row) → ids (rows ++ r ∷ []) ≡ ids rows ++ r.id ∷ []
ids-append [] r = refl
ids-append (s ∷ rows) r = ap (◌∷◌ s.id) (ids-append rows r)

pub ids-keep :
    (id : String) (rows : List Row)
    → ids (keep (λ r. not (has_id id r)) rows) ≡ others id (ids rows)
ids-keep id [] = refl
ids-keep id (r ∷ rows) = elim (Bool-cases (same r.id id)) [
  | inl e ↦ rw (e, ids-keep id rows) refl
  | inr e ↦ rw e (ap (◌∷◌ r.id) (ids-keep id rows))
]

length-ids : (rows : List Row) → length (ids rows) ≡ length rows
length-ids [] = refl
length-ids (r ∷ rows) = ap suc (length-ids rows)

module _ (db : Db) where
  pub count-waiting :
      (id : String) → count (is_named id) (queue_ids db) ≡ count (has_id id) db.items
  count-waiting id =
      count-map (is_named id) (λ r. r.id) (order_by_position db.items)
      ∙ count-order_by_position (has_id id) db.items

  pub length-queue_ids : length (queue_ids db) ≡ length db.items
  length-queue_ids = length-ids (order_by_position db.items) ∙ length-order_by_position db.items

mutate-expected :
    (expected : ℕ) (operation : List Row → Result (List Row)) (db db' : Db)
    → database_of (mutate expected operation db) ≡ ok db'
    → expected ≡ db.state.revision
unfolding mutate
mutate-expected expected operation db db' h = ground arith

-- A deletion that succeeds.
record WasDeleted (test : Row → Bool) (expected : ℕ) (db db' : Db) : Type 0 where
  seen : expected ≡ db.state.revision
  some_row : count test db.items ≢ 0
  left : line db' ≡ raised (line db) (ids (keep (λ r. not (test r)) (order_by_position db.items)))

deleted :
    (test : Row → Bool) (expected : ℕ) (db db' : Db)
    → IsTable db.items
    → database_of (mutate expected (delete_and_compact test) db) ≡ ok db'
    → WasDeleted test expected db db'
deleted test expected db db' t h =
    let was = mutate-WasChanged expected (delete_and_compact test) db db' h in
    let some_row : count test db.items ≢ 0 =
      λ z. cc (delete_and_compact-missing test db.items z, was.rows) in
    let (rows, done, sorted, table) = delete_and_compact-ok test db.items t some_row in
    let left = keep (λ r. not (test r)) (order_by_position db.items) in
    let same_rows : rows ≡ db'.items = cc (done, was.rows) in
    record {
      seen = mutate-expected expected (delete_and_compact test) db db' h;
      some_row = some_row;
      left = line_eq (was.revision ∙ omega arith) (
          ap (λ l. ids (order_by_position l)) (sym same_rows) ∙ ap ids sorted ∙ restamp-ids 0 left);
    }

skipped_ids :
    (sorted : List Row)
    → sorted ≡ restamp 0 sorted
    → ids (keep (λ r. not (is_first r)) sorted) ≡ rest (ids sorted)
skipped_ids [] n = refl
skipped_ids (r ∷ rows) n = ap ids (skip_first (r ∷ rows) r rows n refl)

count-some_length :
    (test : Row → Bool) (rows : List Row) → count test rows ≢ 0 → length (ids rows) ≢ 0
count-some_length test [] h = h
count-some_length test (r ∷ rows) h = λ e. omega arith

-- The call was accepted, and the line is what it makes of it.
abbrev pub Moved : Call → Db → Db → Type 0
Moved c db db' = Accepts c (line db) × (line db' ≡ moved c (line db))

module _ (db db' : Db) (t : IsTable db.items) where
  pub adds-Moved : (a : Addition) → run (adds a) db ≡ ok db' → Moved (adds a) db db'
  unfolding run
  adds-Moved a h =
      let was = admitted a db db' h in
      (
        (count-waiting db a.id ∙ was.fresh_id, omega (arith, was.room, length-queue_ids db)),
        line_eq (ap (λ (d : Db). d.state.revision) was.stored)
            (ap ids (admitted-sorted a db db' t was) ∙ ids-append (order_by_position db.items) _),
      )

  pub removes-Moved :
      (id : String) (seen : ℕ) → run (removes id seen) db ≡ ok db' → Moved (removes id seen) db db'
  unfolding run remove
  removes-Moved id seen h =
      let was = deleted (has_id id) seen db db' t h in
      (
        (was.seen, (λ z. was.some_row (sym (count-waiting db id) ∙ z))),
        was.left ∙ ap (raised (line db)) (ids-keep id (order_by_position db.items)),
      )

  pub skips-Moved : (seen : ℕ) → run (skips seen) db ≡ ok db' → Moved (skips seen) db db'
  unfolding run skip
  skips-Moved seen h =
      let was = deleted is_first seen db db' t h in
      let sorted = order_by_position db.items in
      (
        (
          was.seen,
          count-some_length is_first sorted
              (λ z. was.some_row (sym (count-order_by_position is_first db.items) ∙ z)),
        ),
        was.left ∙ ap (raised (line db)) (skipped_ids sorted t.numbered),
      )

  pub clears-Moved : (seen : ℕ) → run (clears seen) db ≡ ok db' → Moved (clears seen) db db'
  unfolding run clear compact order_by_position
  clears-Moved seen h =
      let was = mutate-WasChanged seen (λ rows. compact []) db db' h in
      let none_left : db'.items ≡ [] = sym (cc was.rows) in
      (
        mutate-expected seen (λ rows. compact []) db db' h,
        line_eq (was.revision ∙ omega arith) (ap (λ rows. ids (order_by_position rows)) none_left),
      )

  permutes : (order : List String) → IsPermutation order db.items → Permutes order (line db)
  permutes order p = record {
    different = p.different;
    waiting = All-imp order (λ x e. count-waiting db x ∙ e) p.found;
    as_many = p.as_many ∙ sym (length-queue_ids db);
  }

  pub reorders-Moved :
      (order : List String) (seen : ℕ)
      → run (reorders order seen) db ≡ ok db'
      → Moved (reorders order seen) db db'
  unfolding run reorder
  reorders-Moved order seen h = elim (Bool-cases (has_repeat [] order)) [
    | inl repeats ↦ cc (rw repeats at h)
    | inr single ↦
        let sparse = IsTable-IsSparse t in
        let was = mutate-WasChanged seen (reorder_rows order) db db' (rw single at h) in
        elim (reorder_rows_cases order db.items sparse (has_repeat-Distinct order single)) [
          | inl p ↦
              let (rows, done, sorted, table, form) = reorder_rows-ok sparse p in
              let same_rows : rows ≡ db'.items = cc (done, was.rows) in
              (
                (
                  mutate-expected seen (reorder_rows order) db db' (rw single at h),
                  permutes order p,
                ),
                line_eq (was.revision ∙ omega arith)
                    (ap (λ l. ids (order_by_position l)) (sym same_rows) ∙ sorted),
              )
          | inr refused ↦ cc (refused, was.rows)
        ]
  ]
