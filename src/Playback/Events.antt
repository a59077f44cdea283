-- ===== src/Playback/Events.antt =====
-- internal/playback/controller.go: `handleEvent`, for each event of the player.
use raspi_media_player.Base.{
  ℕ, ◌+◌, ℤ, String, Bool, true, false, not, Option, none, some, ◌&&◌, same, ltb, if◌then◌else◌,
  lookup, insert, delete,
}
use raspi_media_player.Queue.Rows.{
  PlaybackState, Status, idle, playing, paused, buffering, unavailable,
}
use raspi_media_player.Queue.Playing.{
  update_playback, finish_current, retry_current, reset_playback,
}
use raspi_media_player.Playback.Model.{
  PlayerState, Event, EventType, event_state, event_ended, event_failed, history_title,
  history_finished, observed, Controller, System, emit, with_db, attempt, unload,
}

abbrev same_bool : Bool → Bool → Bool
same_bool true b = b
same_bool false b = not b

-- The pause that was commanded is forgotten once the player reports it.
abbrev pub settle_pause : Bool → Option Bool → Option Bool
settle_pause reported none = none
settle_pause reported (some pause) = if same_bool reported pause then none else some pause

abbrev pub is_unavailable : Status → Bool
is_unavailable unavailable = true
is_unavailable _ = false

abbrev pub is_idle : Status → Bool
is_idle idle = true
is_idle _ = false

abbrev pub commanded_status : Bool → Bool → Status → Status
commanded_status buffer pause status =
    if buffer
    then buffering
    else (if pause then paused else elim status [ paused ↦ playing | other ↦ other ])

abbrev pub stored_state : PlayerState → ℤ → Option Bool → PlaybackState
stored_state p volume none = record {
  status = p.status;
  title = p.title;
  position_seconds = p.position_seconds;
  duration_seconds = p.duration_seconds;
  paused = p.paused;
  buffering = p.buffering;
  volume = volume;
  error = p.error;
}
stored_state p volume (some pause) = record {
  status = commanded_status p.buffering pause p.status;
  title = p.title;
  position_seconds = p.position_seconds;
  duration_seconds = p.duration_seconds;
  paused = pause;
  buffering = p.buffering;
  volume = volume;
  error = p.error;
}

abbrev pub observe : String → System → System
observe title s =
    if s.controller.has_metadata && not (same title "") then emit (observed title) s else s

abbrev pub note_title : String → System → System
note_title title s =
    if s.controller.has_history && not (same title "") && not (same title s.controller.last_title)
    then emit (history_title s.controller.loaded_id title)
        (record s { controller = record s.controller { last_title = title } })
    else s

-- The report of a player at work on the loaded item.
unfoldable pub report : PlayerState → System → System
report p s =
    let c = s.controller in
    let known = record s {
      controller = record c { commanded_pause = settle_pause p.paused c.commanded_pause };
    } in
    note_title p.title (
      observe p.title
        (attempt (update_playback (stored_state p c.desired_volume c.commanded_pause) s.db) known))

unfoldable pub on_state : PlayerState → System → System
unfolding report
on_state p s =
    if s.controller.stopped
    then s
    else (if is_unavailable p.status
        then unload (with_db (reset_playback unavailable p.error s.db) s)
        else (if same s.controller.loaded_id ""
            then (if is_idle p.status then with_db (reset_playback idle "" s.db) s else s)
            else report p s))

abbrev pub finish_history : String → String → Option String → System → System
finish_history title outcome failure s =
    if s.controller.has_history
    then emit (history_finished s.controller.loaded_id title outcome failure) s
    else s

abbrev pub forget : System → System
forget s = record s { controller = record s.controller { loaded_id = ""; last_title = "" } }

abbrev pub drop_retries : System → System
drop_retries s = record s {
  controller = record s.controller { retries = delete s.controller.loaded_id s.controller.retries };
}

unfoldable pub on_ended : PlayerState → System → System
on_ended p s =
    if same s.controller.loaded_id ""
    then s
    else forget (
        attempt (finish_current s.controller.loaded_id none s.db)
          (finish_history p.title "completed" none (drop_retries s)))

abbrev pub or_zero : Option ℕ → ℕ
or_zero none = 0
or_zero (some n) = n

abbrev pub attempts_of : Controller → ℕ
attempts_of c = or_zero (lookup c.loaded_id c.retries)

abbrev pub half_second : ℕ
half_second = 500_000_000

abbrev pub failure_of : Option String → String
failure_of none = "media playback failed"
failure_of (some text) = text

unfoldable pub retry_item : ℕ → String → System → System
retry_item now failure s =
    let c = s.controller in
    attempt (retry_current c.loaded_id (some failure) s.db) (record s {
      controller = record c {
        retries = insert c.loaded_id (attempts_of c + 1) c.retries;
        loaded_id = "";
        retry_after = some (now + half_second);
      };
    })

unfoldable pub fail_item : String → String → System → System
fail_item title failure s = forget (
    attempt (finish_current s.controller.loaded_id (some failure) s.db)
      (finish_history title "failed" (some failure) (drop_retries s)))

unfoldable pub on_failed : ℕ → Option String → PlayerState → System → System
unfolding retry_item fail_item
on_failed now error p s =
    if same s.controller.loaded_id ""
    then s
    else (if ltb (attempts_of s.controller) s.controller.retry_limit
        then retry_item now (failure_of error) s
        else fail_item p.title (failure_of error) s)

abbrev pub dispatch : EventType → ℕ → Event → System → System
dispatch event_state now e s = on_state e.state s
dispatch event_ended now e s = on_ended e.state s
dispatch event_failed now e s = on_failed now e.error e.state s

unfoldable pub handle_event : ℕ → Event → System → System
unfolding on_state on_ended on_failed
handle_event now e s = dispatch e.type now e s
