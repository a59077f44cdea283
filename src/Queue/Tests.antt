-- ===== src/Queue/Tests.antt =====
-- A queue of three items, and the theorems on the queue applied to it.
use raspi_media_player.Base.{
  ℤ, pos, ◌≡◌, ◌≢◌, refl, String, false, none, some, List, [], ◌∷◌, differ, ◌++◌, arith,
}
use raspi_media_player.Queue.Rows.{
  Row, ItemStatus, queued, current, playing, Db, ok, err, not_found, conflict,
}
use raspi_media_player.Queue.Table.{
  compact, has_id, has_repeat, reorder_rows, order_by_position, ids,
}
use raspi_media_player.Queue.Wellformed.{IsTable}
use raspi_media_player.Queue.Permuting.{IsPermutation}
use raspi_media_player.Queue.Numbering.{restamp}
use raspi_media_player.Queue.Contract.{
  changed, Succeeds, reorder-Succeeds, reorder-refused, remove-Succeeds, skip-Succeeds, mutate_once,
}
use raspi_media_player.Queue.Line.{Walk, line}
use raspi_media_player.Queue.Refinement.{run_all-Walk}
use raspi_media_player.Queue.Traces.{after, run_all, queue_ids, run_all-same_revision}
use raspi_media_player.Queue.Admission.{row_of, add_source_titled-ok}
use raspi_media_player.Queue.Invariant.{run-IsWellFormed}
use raspi_media_player.Queue.Store.{
  snapshot, reorder, new_item, bump, remove, skip, mutate, delete_and_compact, is_first, Addition,
  add_source_titled,
}
use raspi_media_player.Queue.Playing.{finish_current, set_volume}
use raspi_media_player.Queue.Calls.{
  Call, reorders, IsWellFormed, run, skips, finishes, removes, sets_volume,
}

abbrev pub row : String → String → ℤ → ItemStatus → Row
row id url position status = record {
  id = id;
  source_kind = "direct";
  source_url = url;
  title = "";
  display_name = "guest";
  position = position;
  added_at = "2024-01-01T00:00:00Z";
  submitter_user_id = none;
  playback_status = status;
  playback_error = "";
}

abbrev pub three_items : List Row
three_items =
    row "b" "http://host/b" (pos 1) queued
    ∷ row "a" "http://host/a" (pos 0) current
    ∷ row "c" "http://host/c" (pos 2) queued
    ∷ []

abbrev pub jukebox : Db
jukebox = record {
  items = three_items;
  state = record {
    revision = 7;
    current_item_id = some "a";
    playback = record {
      status = playing;
      title = "";
      position_seconds = 3;
      duration_seconds = 0;
      paused = false;
      buffering = false;
      volume = pos 80;
      error = "";
    };
  };
  users = [];
  station_urls = [];
}

jukebox-IsTable : IsTable three_items
unfolding order_by_position
jukebox-IsTable = record {
  ids_differ = ((differ refl, (differ refl, tt)), ((differ refl, tt), (tt, tt)));
  urls_differ = ((differ refl, (differ refl, tt)), ((differ refl, tt), (tt, tt)));
  numbered = refl;
}

pub jukebox-IsWellFormed : IsWellFormed jukebox
jukebox-IsWellFormed = record {
  table = jukebox-IsTable;
  one_current = omega arith;
  volume_in_range = refl;
}

abbrev c_a_b : List String
c_a_b = "c" ∷ "a" ∷ "b" ∷ []

c_a_b-IsPermutation : IsPermutation c_a_b three_items
c_a_b-IsPermutation = record {
  different = ((differ refl, (differ refl, tt)), ((differ refl, tt), (tt, tt)));
  found = (refl, (refl, (refl, tt)));
  as_many = refl;
}

reorder-Succeeds_example :
    (rows : List Row) × (reorder c_a_b 7 jukebox
      ≡ ok (changed jukebox rows, snapshot (changed jukebox rows)))
    × (ids (order_by_position rows) ≡ c_a_b)
    × IsTable rows
reorder-Succeeds_example = reorder-Succeeds jukebox jukebox-IsTable c_a_b c_a_b-IsPermutation

reorder-refused_example : reorder ("c" ∷ []) 7 jukebox ≡ err not_found
reorder-refused_example =
    reorder-refused jukebox jukebox-IsTable ("c" ∷ []) (λ p. omega (arith, p.as_many))

remove-Succeeds_example : Succeeds jukebox (remove "b" 7 jukebox) (
    restamp 0
      (row "a" "http://host/a" (pos 0) current ∷ row "c" "http://host/c" (pos 2) queued ∷ []))
unfolding order_by_position
remove-Succeeds_example = remove-Succeeds jukebox jukebox-IsTable "b" (omega arith)

skip-Succeeds_example : Succeeds jukebox (skip 7 jukebox) (
    restamp 0
      (row "b" "http://host/b" (pos 1) queued ∷ row "c" "http://host/c" (pos 2) queued ∷ []))
unfolding order_by_position
skip-Succeeds_example =
    skip-Succeeds jukebox jukebox-IsTable (row "a" "http://host/a" (pos 0) current)
      (row "b" "http://host/b" (pos 1) queued ∷ row "c" "http://host/c" (pos 2) queued ∷ []) refl

abbrev pub skipped_once : Db
skipped_once = after jukebox (run (skips 7) jukebox)

mutate_once_example :
    (skipped_once.state.revision ≡ 8)
    × (mutate 7 (delete_and_compact (has_id "c")) skipped_once ≡ err conflict)
unfolding run skip compact
mutate_once_example =
    mutate_once 7 (delete_and_compact is_first) (delete_and_compact (has_id "c")) jukebox
      skipped_once (snapshot skipped_once) refl

run-IsWellFormed_example : IsWellFormed (after jukebox (run (finishes "a" none) jukebox))
unfolding run finish_current compact
run-IsWellFormed_example =
    run-IsWellFormed (finishes "a" none) jukebox (after jukebox (run (finishes "a" none) jukebox))
      jukebox-IsWellFormed refl

run_all-same_revision_example :
    queue_ids (run_all (removes "b" 6 ∷ sets_volume (pos 30) ∷ []) jukebox) ≡ queue_ids jukebox
unfolding run_all run set_volume remove
run_all-same_revision_example =
    run_all-same_revision (removes "b" 6 ∷ sets_volume (pos 30) ∷ []) jukebox refl

abbrev song : String → Addition
song url = record {
  id = "d";
  now = "2024-01-01T00:01:00Z";
  source_kind = "direct";
  url = url;
  title = "";
  display_name = "guest";
  user = none;
  limit = 10;
}

add_source_titled-ok_example :
    let a = song "http://host/d" in
    let db' = bump (record jukebox { items = jukebox.items ++ row_of a jukebox ∷ [] }) in
    (add_source_titled a jukebox ≡ ok (db', snapshot db', new_item (row_of a jukebox) none))
    × (order_by_position db'.items ≡ order_by_position jukebox.items ++ row_of a jukebox ∷ [])
    × IsTable db'.items
add_source_titled-ok_example =
    add_source_titled-ok (song "http://host/d") jukebox jukebox-IsTable (omega arith) refl refl refl

-- What a deletion leaves: the positions have a gap.
abbrev sparse_items : List Row
sparse_items = row "c" "http://host/c" (pos 2) queued ∷ row "a" "http://host/a" (pos 0) current ∷ []

gap : pos 0 ≢ pos 2
gap = λ e. cc e

abbrev busy : List Call
busy = removes "b" 6 ∷ reorders c_a_b 7 ∷ sets_volume (pos 30) ∷ skips 8 ∷ finishes "a" none ∷ []

run_all-Walk_example : Walk busy (line jukebox) (line (run_all busy jukebox))
run_all-Walk_example = run_all-Walk busy jukebox jukebox-IsWellFormed

-- What is left after the skip and the end of the current item.
shrunken_queue : line (run_all busy jukebox) ≡ record { revision = 10; ids = "b" ∷ [] }
unfolding run_all run set_volume remove reorder skip finish_current has_repeat reorder_rows compact
    order_by_position
shrunken_queue = refl
