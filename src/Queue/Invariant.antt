-- ===== src/Queue/Invariant.antt =====
-- What holds of the database of internal/queue/store.go after any sequence of calls.
use raspi_media_player.Base.{
  ℕ, suc, String, Bool, ◌≡◌, refl, sym, ap, subst, Option, List, [], ◌&&◌, count, same, Bool-cases,
  inl, inr, if◌then◌else◌, arith,
}
use raspi_media_player.Queue.Rows.{Row, Db, PlaybackState, Result, ok, queued, current}
use raspi_media_player.Queue.Table.{has_id, has_repeat, reorder_rows, compact}
use raspi_media_player.Queue.Store.{
  Addition, mutate, delete_and_compact, remove, clear, skip, is_first, reorder, add_source_titled,
}
use raspi_media_player.Queue.Playing.{
  is_queued, is_current, is_current_item, update_where, status_row, set_current, update_playback,
  set_volume, set_paused, finish_rows, finish_current, retry_current, reset_playback,
  reconcile_playback, message_of, takes_title,
}
use raspi_media_player.Queue.Wellformed.{IsSparse}
use raspi_media_player.Queue.Admission.{added_database, admitted}
use raspi_media_player.Queue.Statuses.{status_row-KeepsKeys}
use raspi_media_player.Queue.Calls.{
  Call, adds, removes, clears, skips, reorders, sets_current, updates_playback, sets_volume,
  sets_paused, finishes, retries, resets, reconciles, database_of, run, IsWellFormed, AreRows,
  delete-AreRows, reorder-AreRows, update-AreRows, retitle-AreRows, set_current-AreRows,
  finish-AreRows, compact-AreRows, add-AreRows,
}

rows_of : {db : Db} → IsWellFormed db → AreRows db.items
rows_of w = record { table = w.table; one_current = w.one_current }

with_rows :
    {db db' : Db}
    → IsWellFormed db
    → AreRows db'.items
    → db'.state.playback.volume ≡ db.state.playback.volume
    → IsWellFormed db'
with_rows w v e = record {
  table = v.table;
  one_current = v.one_current;
  volume_in_range = rw e w.volume_in_range;
}

-- What a successful call with a revision has done.
pub record WasChanged (operation : List Row → Result (List Row)) (db db' : Db) : Type 0 where
  pub rows : operation db.items ≡ ok db'.items
  pub volume : db'.state.playback.volume ≡ db.state.playback.volume
  pub revision : db'.state.revision ≡ suc db.state.revision

pub mutate-WasChanged :
    (expected : ℕ) (operation : List Row → Result (List Row)) (db db' : Db)
    → database_of (mutate expected operation db) ≡ ok db'
    → WasChanged operation db db'
unfolding mutate
mutate-WasChanged expected operation db db' h = ground arith

delete-IsWellFormed :
    (test : Row → Bool) (expected : ℕ) (db db' : Db)
    → IsWellFormed db
    → database_of (mutate expected (delete_and_compact test) db) ≡ ok db'
    → IsWellFormed db'
delete-IsWellFormed test expected db db' w h =
    let was = mutate-WasChanged expected (delete_and_compact test) db db' h in
    with_rows w (delete-AreRows test db.items db'.items (rows_of w) was.rows) was.volume

add-IsWellFormed :
    (a : Addition) (db db' : Db)
    → IsWellFormed db
    → added_database (add_source_titled a db) ≡ ok db'
    → IsWellFormed db'
add-IsWellFormed a db db' w h =
    with_rows w (add-AreRows a db db' (rows_of w) h)
      (ap (λ (d : Db). d.state.playback.volume) (admitted a db db' h).stored)

clear-IsWellFormed :
    (expected : ℕ) (db db' : Db)
    → IsWellFormed db
    → database_of (clear expected db) ≡ ok db'
    → IsWellFormed db'
unfolding clear
clear-IsWellFormed expected db db' w h =
    let was = mutate-WasChanged expected (λ rows. compact []) db db' h in
    with_rows w (compact-AreRows [] db'.items empty (omega arith) was.rows) was.volume
  where
    empty : IsSparse []
    empty = record { ids_differ = tt; urls_differ = tt; placed = tt; positions_differ = tt }

module _ (id : String) (db db' : Db) (w : IsWellFormed db) where
  set_current-IsWellFormed : set_current id db ≡ ok db' → IsWellFormed db'
  unfolding set_current
  set_current-IsWellFormed h =
      let test = λ (r : Row). has_id id r && is_queued r in
      let reset = update_where is_current (status_row queued "") db.items in
      let one : count test reset ≡ 1 = ground arith in
      let rows : db'.items ≡ update_where test (status_row current "") reset = ground arith in
      with_rows w (subst AreRows (sym rows) (set_current-AreRows id db.items (rows_of w) one))
        (ground arith)

  retry_current-IsWellFormed :
      (failure : Option String) → retry_current id failure db ≡ ok db' → IsWellFormed db'
  unfolding retry_current
  retry_current-IsWellFormed failure h =
      let change = status_row queued (message_of failure) in
      let rows : db'.items ≡ update_where (is_current_item id) change db.items = ground arith in
      with_rows w
        (subst AreRows (sym rows) (
          update-AreRows (is_current_item id) change db.items
            (status_row-KeepsKeys queued (message_of failure)) (λ r. refl) (rows_of w)))
        (ground arith)

  finish_current-IsWellFormed :
      (failure : Option String) → finish_current id failure db ≡ ok db' → IsWellFormed db'
  unfolding finish_current
  finish_current-IsWellFormed failure h =
      let rows : finish_rows id failure db.items ≡ ok db'.items = ground arith in
      with_rows w (finish-AreRows id failure db.items db'.items (rows_of w) rows) (ground arith)

update_playback-IsWellFormed :
    (s : PlaybackState) (db db' : Db)
    → IsWellFormed db
    → update_playback s db ≡ ok db'
    → IsWellFormed db'
unfolding update_playback
update_playback-IsWellFormed s db db' w h =
    let test = takes_title db.state.current_item_id s.title in
    let retitled = update_where test (λ r. record r { title = s.title }) db.items in
    let rows : db'.items ≡ (if same s.title "" then db.items else retitled) = ground arith in
    let kept : AreRows db'.items = elim (Bool-cases (same s.title "")) [
      | inl e ↦ subst AreRows (sym (rw e at rows)) (rows_of w)
      | inr e ↦
          subst AreRows (sym (rw e at rows)) (retitle-AreRows test s.title db.items (rows_of w))
    ] in
    record { table = kept.table; one_current = kept.one_current; volume_in_range = ground arith }

reconcile_playback-IsWellFormed : (db : Db) → IsWellFormed db → IsWellFormed (reconcile_playback db)
unfolding reconcile_playback
reconcile_playback-IsWellFormed db w =
    with_rows w
      (update-AreRows is_current (λ r. record r { playback_status = queued }) db.items
        (record { keeps_id = λ r. refl; keeps_url = λ r. refl; keeps_position = λ r. refl })
        (λ r. refl) (rows_of w))
      refl

-- Every call that succeeds on a well-formed database, of whatever client, leaves one: ids and urls differ,
-- positions are 0, 1, 2, …, at most one item is current, and the volume lies between 0 and 100.
pub run-IsWellFormed :
    (c : Call) (db db' : Db) → IsWellFormed db → run c db ≡ ok db' → IsWellFormed db'
unfolding run remove skip reorder set_volume set_paused reset_playback
run-IsWellFormed (adds a) db db' w h = add-IsWellFormed a db db' w h
run-IsWellFormed (removes id expected) db db' w h =
    delete-IsWellFormed (has_id id) expected db db' w h
run-IsWellFormed (clears expected) db db' w h = clear-IsWellFormed expected db db' w h
run-IsWellFormed (skips expected) db db' w h = delete-IsWellFormed is_first expected db db' w h
run-IsWellFormed (reorders order expected) db db' w h = elim (Bool-cases (has_repeat [] order)) [
  | inl repeats ↦ cc (rw repeats at h)
  | inr single ↦
      let was = mutate-WasChanged expected (reorder_rows order) db db' (rw single at h) in
      with_rows w (reorder-AreRows order db.items db'.items (rows_of w) single was.rows) was.volume
]
run-IsWellFormed (sets_current id) db db' w h = set_current-IsWellFormed id db db' w h
run-IsWellFormed (updates_playback s) db db' w h = update_playback-IsWellFormed s db db' w h
run-IsWellFormed (sets_volume volume) db db' w h = ground arith
run-IsWellFormed (sets_paused pause) db db' w h = ground arith
run-IsWellFormed (finishes id failure) db db' w h =
    finish_current-IsWellFormed id db db' w failure h
run-IsWellFormed (retries id failure) db db' w h = retry_current-IsWellFormed id db db' w failure h
run-IsWellFormed (resets status message) db db' w h = ground arith
run-IsWellFormed reconciles db db' w h =
    let done : reconcile_playback db ≡ db' = cc in
    subst IsWellFormed done (reconcile_playback-IsWellFormed db w)
