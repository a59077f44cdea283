-- ===== src/Playback/Steps.antt =====
-- internal/playback/controller.go: what every step of the controller keeps.
use raspi_media_player.Base.{ℕ, ◌≤◌, ℤ, false, ◌≡◌, Option, List, [], ◌∷◌, All, ◌⊎◌}
use raspi_media_player.Queue.Calls.{IsWellFormed}
use raspi_media_player.Playback.Model.{PlayerError, Event, System}
use raspi_media_player.Playback.Reconcile.{Answers, reconcile}
use raspi_media_player.Playback.Events.{handle_event}
use raspi_media_player.Playback.Commands.{pause, resume, stop, seek, change_volume}

-- Everything that changes the system: a round of the loop, an event, a command.
pub data Move : Type 0 where
  round : ℕ → Answers → Move
  event : ℕ → Event → Move
  pauses_playback resumes stops_playback : Option PlayerError → Move
  seeks_to : ℕ → Option PlayerError → Move
  changes_volume : ℤ → Option PlayerError → Move

unfoldable pub step : Move → System → System
step (round now answers) s = reconcile now answers s
step (event now e) s = handle_event now e s
step (pauses_playback answer) s = (pause answer s).0
step (resumes answer) s = (resume answer s).0
step (stops_playback answer) s = (stop answer s).0
step (seeks_to seconds answer) s = (seek seconds answer s).0
step (changes_volume volume answer) s = (change_volume volume answer s).0

unfoldable pub run_moves : List Move → System → System
unfolding step
run_moves [] s = s
run_moves (m ∷ moves) s = run_moves moves (step m s)

-- What holds between two steps: the database is well formed, no item has more retries than the
-- limit, and nothing is loaded while the controller is stopped.
pub record IsConsistent (s : System) : Type 0 where
  pub database : IsWellFormed s.db
  pub bounded : All (λ e. e.1 ≤ s.controller.retry_limit) s.controller.retries
  pub quiet : (s.controller.stopped ≡ false) ⊎ (s.controller.loaded_id ≡ "")
