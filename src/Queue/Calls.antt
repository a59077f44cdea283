-- ===== src/Queue/Calls.antt =====
-- Every method of internal/queue/store.go that writes, as one type of calls, and what each keeps.
use raspi_media_player.Base.{
  ℕ, ℤ, String, Bool, true, false, not, ◌≡◌, ◌≤◌, refl, sym, ap, subst, ◌∙◌, Option, none, some,
  List, [], ◌∷◌, ◌++◌, ◌&&◌, map, count, count-map, count-append, count-keep-le, keep, Bool-cases,
  inl, inr, arith,
}
use raspi_media_player.Queue.Rows.{
  Row, Db, PlaybackState, Result, ok, err, Status, queued, current, failed,
}
use raspi_media_player.Queue.Table.{
  order_by_position, ids, has_id, compact, has_repeat, reorder_rows,
}
use raspi_media_player.Queue.Store.{
  delete_and_compact, remove, clear, skip, reorder, Addition, add_source_titled,
}
use raspi_media_player.Queue.Playing.{
  is_queued, is_current, is_current_item, update_where, status_row, set_current, volume_allowed,
  update_playback, set_volume, set_paused, finish_rows, finish_current, retry_current,
  reset_playback, reconcile_playback,
}
use raspi_media_player.Queue.Numbering.{renumber, renumbered}
use raspi_media_player.Queue.Wellformed.{
  IsTable, IsSparse, IsTable-IsSparse, keep-IsSparse, renumbered-IsTable, compact-IsSparse,
}
use raspi_media_player.Queue.Admission.{added_database, admitted, row_of, add_source_titled-IsTable}
use raspi_media_player.Queue.Permuting.{reorder_rows_cases, reorder_rows-ok}
use raspi_media_player.Queue.Contract.{has_repeat-Distinct}
use raspi_media_player.Queue.Statuses.{
  KeepsKeys, update_where-IsTable, status_row-KeepsKeys, update_where-count_le, count-after_reset,
  count-set_current,
}

pub data Call : Type 0 where
  adds : Addition → Call
  removes : String → ℕ → Call
  clears skips : ℕ → Call
  reorders : List String → ℕ → Call
  sets_current : String → Call
  updates_playback : PlaybackState → Call
  sets_volume : ℤ → Call
  sets_paused : Bool → Call
  finishes : String → Option String → Call
  retries : String → Option String → Call
  resets : Status → String → Call
  reconciles : Call

abbrev pub database_of {ℓ} : {A : Type ℓ} → Result (Db × A) → Result Db
database_of (ok r) = ok r.0
database_of (err e) = err e

unfoldable pub run : Call → Db → Result Db
run (adds a) db = added_database (add_source_titled a db)
run (removes id expected) db = database_of (remove id expected db)
run (clears expected) db = database_of (clear expected db)
run (skips expected) db = database_of (skip expected db)
run (reorders order expected) db = database_of (reorder order expected db)
run (sets_current id) db = set_current id db
run (updates_playback s) db = update_playback s db
run (sets_volume volume) db = set_volume volume db
run (sets_paused pause) db = ok (set_paused pause db)
run (finishes id failure) db = finish_current id failure db
run (retries id failure) db = retry_current id failure db
run (resets status message) db = ok (reset_playback status message db)
run reconciles db = ok (reconcile_playback db)

-- What holds of the database between two calls.
pub record IsWellFormed (db : Db) : Type 0 where
  pub table : IsTable db.items
  pub one_current : count is_current db.items ≤ 1
  pub volume_in_range : volume_allowed db.state.playback.volume ≡ true

-- The rows of a table with at most one current row.
pub record AreRows (rows : List Row) : Type 0 where
  pub table : IsTable rows
  pub one_current : count is_current rows ≤ 1

pub compact-AreRows :
    (rows rows' : List Row)
    → IsSparse rows
    → count is_current rows ≤ 1
    → compact rows ≡ ok rows'
    → AreRows rows'
compact-AreRows rows rows' s one h =
    let same_rows : ok (renumbered rows) ≡ ok rows' = sym (compact-IsSparse s) ∙ h in
    subst AreRows (cc) (record {
      table = renumbered-IsTable s;
      one_current = rw (count-map is_current (renumber (ids (order_by_position rows))) rows) one;
    })

pub delete-AreRows :
    (test : Row → Bool) (rows rows' : List Row)
    → AreRows rows
    → delete_and_compact test rows ≡ ok rows'
    → AreRows rows'
unfolding delete_and_compact
delete-AreRows test rows rows' v h =
    let left = keep (λ r. not (test r)) rows in
    compact-AreRows left rows' (keep-IsSparse (λ r. not (test r)) (IsTable-IsSparse v.table))
      (omega (arith, count-keep-le is_current (λ r. not (test r)) rows, v.one_current))
      (ground arith)

map-AreRows_current :
    (order : List String) (rows : List Row)
    → count is_current (map (renumber order) rows) ≡ count is_current rows
map-AreRows_current order rows = count-map is_current (renumber order) rows

pub reorder-AreRows :
    (order : List String) (rows rows' : List Row)
    → AreRows rows
    → has_repeat [] order ≡ false
    → reorder_rows order rows ≡ ok rows'
    → AreRows rows'
reorder-AreRows order rows rows' v single h =
    let sparse = IsTable-IsSparse v.table in
    elim (reorder_rows_cases order rows sparse (has_repeat-Distinct order single)) [
      | inl p ↦
          let (made, done, sorted, table, form) = reorder_rows-ok sparse p in
          let same_rows : ok made ≡ ok rows' = sym done ∙ h in
          subst AreRows (cc) (record {
            table = table;
            one_current = rw form (omega (arith, v.one_current, map-AreRows_current order rows));
          })
      | inr refused ↦ cc (refused)
    ]

-- A statement on the status columns that makes no row current.
pub update-AreRows :
    (test : Row → Bool) (f : Row → Row) (rows : List Row)
    → KeepsKeys f
    → ((r : Row) → is_current (f r) ≡ false)
    → AreRows rows
    → AreRows (update_where test f rows)
update-AreRows test f rows keeps h v = record {
  table = update_where-IsTable test f keeps v.table;
  one_current = omega (arith, update_where-count_le test f h rows, v.one_current);
}

-- The statement of `UpdatePlayback` on the titles.
pub retitle-AreRows :
    (test : Row → Bool) (title : String) (rows : List Row)
    → AreRows rows
    → AreRows (update_where test (λ r. record r { title = title }) rows)
retitle-AreRows test title rows v = record {
  table =
      update_where-IsTable test (λ r. record r { title = title })
        (record { keeps_id = λ r. refl; keeps_url = λ r. refl; keeps_position = λ r. refl })
        v.table;
  one_current = rw (same_count rows) v.one_current;
}
  where
    same_count :
        (rows : List Row)
        → count is_current (update_where test (λ r. record r { title = title }) rows)
          ≡ count is_current rows
    same_count [] = refl
    same_count (r ∷ rows) = elim (Bool-cases (test r)) [
      | inl e ↦ rw (e, same_count rows) refl
      | inr e ↦ rw (e, same_count rows) refl
    ]

pub set_current-AreRows :
    (id : String) (rows : List Row)
    → AreRows rows
    → count (λ r. has_id id r && is_queued r) (update_where is_current (status_row queued "") rows)
      ≡ 1
    → AreRows (
        update_where
          (λ r. has_id id r && is_queued r)
          (status_row current "")
          (update_where is_current (status_row queued "") rows))
set_current-AreRows id rows v h =
    let test = λ (r : Row). has_id id r && is_queued r in
    let reset = update_where is_current (status_row queued "") rows in
    record {
      table = update_where-IsTable test (status_row current "") (status_row-KeepsKeys current "") (
          update_where-IsTable is_current (status_row queued "") (status_row-KeepsKeys queued "")
            v.table);
      one_current = omega (arith, count-set_current test "" reset (count-after_reset "" rows), h);
    }

pub finish-AreRows :
    (id : String) (failure : Option String) (rows rows' : List Row)
    → AreRows rows
    → finish_rows id failure rows ≡ ok rows'
    → AreRows rows'
finish-AreRows id none rows rows' v h =
    let others = λ (r : Row). not (is_current_item id r) in
    compact-AreRows (keep others rows) rows' (keep-IsSparse others (IsTable-IsSparse v.table))
      (omega (arith, count-keep-le is_current others rows, v.one_current)) h
finish-AreRows id (some message) rows rows' v h =
    let after = update_where (is_current_item id) (status_row failed message) rows in
    subst AreRows (cc) (
      update-AreRows (is_current_item id) (status_row failed message) rows
        (status_row-KeepsKeys failed message) (λ r. refl) v)

pub add-AreRows :
    (a : Addition) (db db' : Db)
    → AreRows db.items
    → added_database (add_source_titled a db) ≡ ok db'
    → AreRows db'.items
add-AreRows a db db' v h =
    let rows : db'.items ≡ db.items ++ row_of a db ∷ [] =
      ap (λ (d : Db). d.items) (admitted a db db' h).stored in
    record {
      table = (add_source_titled-IsTable a db db' v.table h).0;
      one_current =
          rw rows
            (omega (arith, v.one_current, count-append is_current db.items (row_of a db ∷ [])));
    }
