-- ===== src/Playback/Commands.antt =====
-- internal/playback/controller.go: what the HTTP handlers call, and `New` and `Start`. The answer of
-- the player is an argument: `none` where it obeys.
use raspi_media_player.Base.{ℕ, ℤ, Bool, true, false, Option, none, some, [], if◌then◌else◌}
use raspi_media_player.Queue.Rows.{Db, Status, stopped, Error, Result, ok, err}
use raspi_media_player.Queue.Store.{snapshot}
use raspi_media_player.Queue.Playing.{set_volume, set_paused, reset_playback, reconcile_playback}
use raspi_media_player.Playback.Model.{
  PlayerError, pauses, volumes, seeks, stops, Controller, System, emit, with_db,
}

-- The outcome of a command.
pub data Outcome : Type 0 where
  done : Outcome
  player_error : PlayerError → Outcome
  queue_error : Error → Outcome

abbrev pub with_controller : Controller → System → System
with_controller c s = record s { controller = c }

abbrev pub paused_by : Bool → Option PlayerError → System → System × Outcome
paused_by pause none s = (
  with_db (set_paused pause s.db)
      (with_controller (record s.controller { commanded_pause = some pause }) s),
  done,
)
paused_by pause (some e) s =
    (with_controller (record s.controller { commanded_pause = none }) s, player_error e)

unfoldable pub command_pause : Bool → Option PlayerError → System → System × Outcome
command_pause pause answer s = paused_by pause answer (emit (pauses pause) s)

unfoldable pub pause : Option PlayerError → System → System × Outcome
unfolding command_pause
pause = command_pause true

abbrev pub is_stopped : Status → Bool
is_stopped stopped = true
is_stopped _ = false

unfoldable pub restart : System → System
restart s =
    with_db (reconcile_playback s.db)
      (with_controller (record s.controller { loaded_id = ""; stopped = false }) s)

-- The status that is read is that of the database, not the flag of the controller.
unfoldable pub resume : Option PlayerError → System → System × Outcome
unfolding command_pause restart
resume answer s =
    if is_stopped (snapshot s.db).playback.status
    then (restart s, done)
    else command_pause false answer s

abbrev pub stopped_by : Option PlayerError → System → System × Outcome
stopped_by (some e) s = (s, player_error e)
stopped_by none s = (
  with_db (reset_playback stopped "" s.db)
      (with_controller (record s.controller { loaded_id = ""; stopped = true }) s),
  done,
)

unfoldable pub stop : Option PlayerError → System → System × Outcome
stop answer s = stopped_by answer (emit stops s)

abbrev pub answered : Option PlayerError → Outcome
answered none = done
answered (some e) = player_error e

unfoldable pub seek : ℕ → Option PlayerError → System → System × Outcome
seek seconds answer s = (emit (seeks seconds) s, answered answer)

abbrev pub stored : Result Db → System → System × Outcome
stored (ok db) s = (with_db db s, done)
stored (err e) s = (s, queue_error e)

abbrev pub volume_by : ℤ → Option PlayerError → System → System × Outcome
volume_by volume (some e) s = (s, player_error e)
volume_by volume none s =
    stored (set_volume volume s.db)
      (with_controller (record s.controller { desired_volume = volume }) s)

-- A refused volume leaves the desired one as it was.
unfoldable pub change_volume : ℤ → Option PlayerError → System → System × Outcome
change_volume volume answer s = volume_by volume answer (emit (volumes volume) s)

unfoldable pub new : ℕ → Bool → Bool → Controller
new retry_limit has_history has_metadata = record {
  loaded_id = "";
  stopped = false;
  retry_limit = retry_limit;
  retries = [];
  retry_after = none;
  desired_volume = ℤ.pos 0;
  last_title = "";
  commanded_pause = none;
  has_history = has_history;
  has_metadata = has_metadata;
}

-- `Start`, as far as the database: what was current is queued again.
unfoldable pub start : System → System
start s = with_db (reconcile_playback s.db) s
