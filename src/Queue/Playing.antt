-- ===== src/Queue/Playing.antt =====
-- internal/queue/store.go: the methods by which the playback controller moves the current item and
-- the playback state. They compare no revision.
use raspi_media_player.Base.{
  ℤ, pos, negsuc, ◌+◌, String, Bool, true, false, not, Option, none, some, List, ◌&&◌, ◌||◌, map,
  count, keep, same, ◌==◌, leb, if◌then◌else◌,
}
use raspi_media_player.Queue.Rows.{
  Row, Result, ok, ◌>>=◌, ◌>>◌, guard, ItemStatus, queued, current, failed, Status, idle, loading,
  playing, paused, buffering, retrying, PlaybackState, StateRow, Db, not_found, check_violation,
}
use raspi_media_player.Queue.Table.{has_id, compact}
use raspi_media_player.Queue.Store.{with_state}

abbrev pub is_queued : Row → Bool
is_queued r = elim r.playback_status [ queued ↦ true | _ ↦ false ]

abbrev pub is_current : Row → Bool
is_current r = elim r.playback_status [ current ↦ true | _ ↦ false ]

-- `UPDATE queue_items SET … WHERE test`, of columns without a constraint.
abbrev pub update_where : (Row → Bool) → (Row → Row) → List Row → List Row
update_where test change = map (λ r. if test r then change r else r)

abbrev pub status_row : ItemStatus → String → Row → Row
status_row status error r = record r { playback_status = status; playback_error = error }

-- The columns that each change of the current item resets; the volume stays.
abbrev pub reset_playback_state : Status → String → PlaybackState → PlaybackState
reset_playback_state status error s = record {
  status = status;
  title = "";
  position_seconds = 0;
  duration_seconds = 0;
  paused = false;
  buffering = false;
  volume = s.volume;
  error = error;
}

abbrev pub reset_state : Option String → Status → String → StateRow → StateRow
reset_state id status error s = record {
  revision = s.revision;
  current_item_id = id;
  playback = reset_playback_state status error s.playback;
}

unfoldable pub set_current : String → Db → Result Db
set_current id db = do
  let rows = update_where is_current (status_row queued "") db.items
  let test = λ (r : Row). has_id id r && is_queued r
  guard (count test rows == 1) not_found
  ok (record db {
    items = update_where test (status_row current "") rows;
    state = reset_state (some id) loading "" db.state;
  })

-- `CHECK (volume BETWEEN 0 AND 100)`
abbrev pub volume_allowed : ℤ → Bool
volume_allowed (pos n) = leb n 100
volume_allowed (negsuc n) = false

-- The rows that take the title of the stream: the current one, if its own is empty or it is direct.
abbrev pub takes_title : Option String → String → Row → Bool
takes_title none title r = false
takes_title (some id) title r =
    has_id id r && not (same r.title title) && (same r.title "" || same r.source_kind "direct")

unfoldable pub update_playback : PlaybackState → Db → Result Db
update_playback s db = do
  guard (volume_allowed s.volume) check_violation
  let retitled =
      update_where (takes_title db.state.current_item_id s.title)
        (λ r. record r { title = s.title }) db.items
  ok (record db {
    items = if same s.title "" then db.items else retitled;
    state = record db.state { playback = s };
  })

unfoldable pub set_volume : ℤ → Db → Result Db
set_volume volume db = do
  guard (volume_allowed volume) check_violation
  ok (with_state db (record db.state { playback = record db.state.playback { volume = volume } }))

-- The `CASE` of `SetPaused`, on the columns as they were.
abbrev pub paused_status : Bool → PlaybackState → Status
paused_status pause s =
    if s.buffering
    then buffering
    else (if pause then paused else elim s.status [ paused ↦ playing | other ↦ other ])

unfoldable pub set_paused : Bool → Db → Db
set_paused pause db = with_state db (record db.state {
  playback = record db.state.playback {
    paused = pause;
    status = paused_status pause db.state.playback;
  };
})

abbrev pub message_of : Option String → String
message_of none = ""
message_of (some message) = message

abbrev pub is_current_item : String → Row → Bool
is_current_item id r = has_id id r && is_current r

-- A finished item leaves the queue, and a failed one stays with its error.
abbrev pub finish_rows : String → Option String → List Row → Result (List Row)
finish_rows id none rows = compact (keep (λ r. not (is_current_item id r)) rows)
finish_rows id (some message) rows =
    ok (update_where (is_current_item id) (status_row failed message) rows)

unfoldable pub finish_current : String → Option String → Db → Result Db
finish_current id failure db = do
  guard (count (is_current_item id) db.items == 1) not_found
  rows ← finish_rows id failure db.items
  let state = reset_state none idle (message_of failure) db.state
  ok (record db { items = rows; state = record state { revision = state.revision + 1 } })

unfoldable pub retry_current : String → Option String → Db → Result Db
retry_current id failure db = do
  guard (count (is_current_item id) db.items == 1) not_found
  ok (record db {
    items = update_where (is_current_item id) (status_row queued (message_of failure)) db.items;
    state = reset_state none retrying (message_of failure) db.state;
  })

unfoldable pub reset_playback : Status → String → Db → Db
reset_playback status message db = with_state db (reset_state none status message db.state)

unfoldable pub reconcile_playback : Db → Db
reconcile_playback db = record db {
  items = update_where is_current (λ r. record r { playback_status = queued }) db.items;
  state = reset_state none idle "" db.state;
}
