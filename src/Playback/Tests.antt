-- ===== src/Playback/Tests.antt =====
-- A controller that plays the first item of a queue, and the theorems on playback applied to it.
use raspi_media_player.Base.{
  pos, ◌≤◌, ◌<◌, ◌≡◌, ◌⊎◌, inl, refl, true, false, none, some, [], ◌∷◌, differ, arith,
}
use raspi_media_player.Queue.Rows.{playing, idle}
use raspi_media_player.Queue.Store.{snapshot}
use raspi_media_player.Queue.Tests.{jukebox, jukebox-IsWellFormed}
use raspi_media_player.Playback.Model.{PlayerState, Event, event_failed, System}
use raspi_media_player.Playback.Reconcile.{Answers, playable}
use raspi_media_player.Playback.Events.{on_failed, attempts_of, failure_of}
use raspi_media_player.Playback.Steps.{round, event, stops_playback, run_moves, IsConsistent}
use raspi_media_player.Playback.Mpv.{Message, flag, number, initial_state, handle_messages}
use raspi_media_player.Playback.Reported.{IsIdling, handle_messages-IsIdling}
use raspi_media_player.Playback.Requests.{
  asks_stop, command, IsConsistentIfPresent, command-IsConsistent,
}
use raspi_media_player.Playback.Reachable.{run_moves-IsConsistent}
use raspi_media_player.Playback.Outcomes.{
  ticks, reports, happen_all, IsUntouched, happen_all-IsUntouched, stop_pause_resume,
  stop_pause_resume-stuck,
}
use raspi_media_player.Playback.Failures.{IsRetried, IsFailed, on_failed-decides}

-- The item `a` is loaded, and failed once before.
abbrev radio : System
radio = record {
  controller = record {
    loaded_id = "a";
    stopped = false;
    retry_limit = 2;
    retries = ("a", 1) ∷ [];
    retry_after = none;
    desired_volume = pos 80;
    last_title = "";
    commanded_pause = none;
    has_history = true;
    has_metadata = false;
  };
  db = jukebox;
  effects = [];
}

abbrev silence : PlayerState
silence = record {
  status = idle;
  title = "";
  position_seconds = 0;
  duration_seconds = 0;
  paused = false;
  buffering = false;
  volume = pos 0;
  error = "";
}

abbrev failure : Event
failure = record { type = event_failed; state = silence; error = some "no route" }

abbrev obedient : Answers
obedient = record { resolve = λ kind url. playable url; load = λ url. none }

radio-IsConsistent : IsConsistent radio
radio-IsConsistent = record {
  database = jukebox-IsWellFormed;
  bounded = (omega arith, tt);
  quiet = inl refl;
}

run_moves-IsConsistent_example :
    IsConsistent
      (run_moves (event 5 failure ∷ round 600_000_000 obedient ∷ stops_playback none ∷ []) radio)
run_moves-IsConsistent_example =
    run_moves-IsConsistent (event 5 failure ∷ round 600_000_000 obedient ∷ stops_playback none ∷ [])
      radio radio-IsConsistent

on_failed-decides_example :
    ((attempts_of radio.controller < 2)
      × IsRetried radio (on_failed 5 none silence radio) 5 "a" (failure_of none))
    ⊎ ((2 ≤ attempts_of radio.controller)
        × IsFailed radio (on_failed 5 none silence radio) "a" (failure_of none))
on_failed-decides_example = on_failed-decides 5 none silence radio (differ refl)

abbrev halted : System
halted = record radio { controller = record radio.controller { stopped = true; loaded_id = "" } }

happen_all-IsUntouched_example :
    IsUntouched halted (happen_all (ticks 9 obedient ∷ reports 10 failure ∷ []) halted)
happen_all-IsUntouched_example =
    happen_all-IsUntouched (ticks 9 obedient ∷ reports 10 failure ∷ []) halted
      (record { stopped_now = refl; nothing_loaded = refl })

stop_pause_resume-stuck_example :
    ((snapshot (stop_pause_resume radio).db).playback.status ≡ playing)
    × IsUntouched
        (stop_pause_resume radio)
        (happen_all (ticks 9 obedient ∷ ticks 10 obedient ∷ []) (stop_pause_resume radio))
stop_pause_resume-stuck_example =
    stop_pause_resume-stuck (ticks 9 obedient ∷ ticks 10 obedient ∷ []) radio

abbrev plays_on : Message
plays_on = record {
  event = "property-change";
  name = "core-idle";
  data_value = flag false;
  reason = "";
  error = "";
}

abbrev moves_on : Message
moves_on = record plays_on { name = "time-pos"; data_value = number 12 500 }

handle_messages-IsIdling_example :
    IsIdling (handle_messages (plays_on ∷ moves_on ∷ []) initial_state).0
handle_messages-IsIdling_example =
    handle_messages-IsIdling (plays_on ∷ moves_on ∷ []) initial_state (refl, (refl, tt))
      (record { unpaused = refl; unbuffered = refl; idles = refl })

command-IsConsistent_example : IsConsistentIfPresent (command asks_stop none (some radio)).0
command-IsConsistent_example = command-IsConsistent asks_stop none radio radio-IsConsistent
