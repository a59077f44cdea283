-- ===== src/Playback/Reachable.antt =====
-- internal/playback/controller.go: the commands keep the controller consistent, and so does every
-- sequence of steps.
use raspi_media_player.Base.{
  ℤ, Bool, true, false, ◌≡◌, refl, Option, none, some, List, [], ◌∷◌, Bool-cases, inl, inr,
}
use raspi_media_player.Queue.Rows.{Db, stopped, Result, ok, err}
use raspi_media_player.Queue.Store.{snapshot}
use raspi_media_player.Queue.Calls.{sets_volume, sets_paused, reconciles, run}
use raspi_media_player.Queue.Playing.{set_volume, set_paused, reconcile_playback}
use raspi_media_player.Queue.Invariant.{run-IsWellFormed}
use raspi_media_player.Playback.Model.{PlayerError, volumes, stops, seeks, System, emit}
use raspi_media_player.Playback.Events.{handle_event}
use raspi_media_player.Playback.Commands.{
  pause, resume, stop, seek, change_volume, command_pause, restart, volume_by, stored, is_stopped,
}
use raspi_media_player.Playback.Steps.{
  Move, round, event, pauses_playback, resumes, stops_playback, seeks_to, changes_volume, step,
  run_moves, IsConsistent,
}
use raspi_media_player.Playback.Consistency.{
  emit-IsConsistent, reset-IsConsistent, reconcile-IsConsistent,
}
use raspi_media_player.Playback.Reports.{handle_event-IsConsistent}

command_pause-IsConsistent :
    (pausing : Bool) (answer : Option PlayerError) (s : System)
    → IsConsistent s
    → IsConsistent (command_pause pausing answer s).0
unfolding command_pause run
command_pause-IsConsistent pausing none s v = record {
  database = run-IsWellFormed (sets_paused pausing) s.db (set_paused pausing s.db) v.database refl;
  bounded = v.bounded;
  quiet = v.quiet;
}
command_pause-IsConsistent pausing (some e) s v = record {
  database = v.database;
  bounded = v.bounded;
  quiet = v.quiet;
}

restart-IsConsistent : (s : System) → IsConsistent s → IsConsistent (restart s)
unfolding restart run
restart-IsConsistent s v = record {
  database = run-IsWellFormed reconciles s.db (reconcile_playback s.db) v.database refl;
  bounded = v.bounded;
  quiet = inr refl;
}

resume-IsConsistent :
    (answer : Option PlayerError) (s : System) → IsConsistent s → IsConsistent (resume answer s).0
unfolding resume
resume-IsConsistent answer s v = elim (Bool-cases (is_stopped (snapshot s.db).playback.status)) [
  | inl e ↦ rw e (restart-IsConsistent s v)
  | inr e ↦ rw e (command_pause-IsConsistent false answer s v)
]

stop-IsConsistent :
    (answer : Option PlayerError) (s : System) → IsConsistent s → IsConsistent (stop answer s).0
unfolding stop
stop-IsConsistent (some e) s v = emit-IsConsistent stops s v
stop-IsConsistent none s v =
    let reset = reset-IsConsistent stopped "" s v in
    record { database = reset.database; bounded = v.bounded; quiet = inr refl }

volume_by-IsConsistent :
    (volume : ℤ) (answer : Option PlayerError) (s : System)
    → IsConsistent s
    → IsConsistent (volume_by volume answer s).0
unfolding run
volume_by-IsConsistent volume (some e) s v = v
volume_by-IsConsistent volume none s v = go (set_volume volume s.db) refl
  where
    wanted : System
    wanted = record s { controller = record s.controller { desired_volume = volume } }

    go : (r : Result Db) → set_volume volume s.db ≡ r → IsConsistent (stored r wanted).0
    go (ok db) h = record {
      database = run-IsWellFormed (sets_volume volume) s.db db v.database h;
      bounded = v.bounded;
      quiet = v.quiet;
    }
    go (err e) h = record { database = v.database; bounded = v.bounded; quiet = v.quiet }

step-IsConsistent : (m : Move) (s : System) → IsConsistent s → IsConsistent (step m s)
unfolding step handle_event pause seek change_volume
step-IsConsistent (round now answers) s v = reconcile-IsConsistent now answers s v
step-IsConsistent (event now e) s v = handle_event-IsConsistent now e.type e s v
step-IsConsistent (pauses_playback answer) s v = command_pause-IsConsistent true answer s v
step-IsConsistent (resumes answer) s v = resume-IsConsistent answer s v
step-IsConsistent (stops_playback answer) s v = stop-IsConsistent answer s v
step-IsConsistent (seeks_to seconds answer) s v = emit-IsConsistent (seeks seconds) s v
step-IsConsistent (changes_volume volume answer) s v =
    volume_by-IsConsistent volume answer (emit (volumes volume) s)
      (emit-IsConsistent (volumes volume) s v)

-- From a consistent system, whatever rounds, events and commands come, in any order and with any
-- answers of the player and the sources, the database stays well formed, no item has more retries than the limit, and nothing is
-- loaded while the controller is stopped.
pub run_moves-IsConsistent :
    (moves : List Move) (s : System) → IsConsistent s → IsConsistent (run_moves moves s)
unfolding run_moves
run_moves-IsConsistent [] s v = v
run_moves-IsConsistent (m ∷ moves) s v =
    run_moves-IsConsistent moves (step m s) (step-IsConsistent m s v)
