-- ===== src/Playback/Outcomes.antt =====
-- internal/playback/controller.go: what a stopped controller ignores.
use mathlib.Core.Bool.{true≢false}
use raspi_media_player.Base.{
  ℕ, Bool, true, false, ◌≡◌, refl, sym, subst, ◌∙◌, none, List, [], ◌∷◌, if◌then◌else◌,
}
use raspi_media_player.Queue.Rows.{playing}
use raspi_media_player.Queue.Store.{snapshot}
use raspi_media_player.Queue.Playing.{set_paused, reset_playback}
use raspi_media_player.Playback.Model.{
  Event, EventType, event_state, event_ended, event_failed, System,
}
use raspi_media_player.Playback.Reconcile.{
  Answers, next_item, advance, adopt_volume, reconcile, is_waiting_to_retry,
}
use raspi_media_player.Playback.Events.{on_state, on_ended, on_failed, dispatch, handle_event}
use raspi_media_player.Playback.Commands.{pause, resume, stop, command_pause}

-- What happens by itself: a round of the loop, an event of the player.
pub data Happening : Type 0 where
  ticks : ℕ → Answers → Happening
  reports : ℕ → Event → Happening

abbrev pub happens : Happening → System → System
happens (ticks now answers) s = reconcile now answers s
happens (reports now e) s = handle_event now e s

abbrev pub happen_all : List Happening → System → System
happen_all [] s = s
happen_all (h ∷ rest) s = happen_all rest (happens h s)

-- A stopped controller with nothing loaded.
pub record IsHalted (s : System) : Type 0 where
  pub stopped_now : s.controller.stopped ≡ true
  pub nothing_loaded : s.controller.loaded_id ≡ ""

-- Two systems with the same database, the same calls so far, and the second halted.
pub record IsUntouched (s t : System) : Type 0 where
  pub same_db : t.db ≡ s.db
  pub same_effects : t.effects ≡ s.effects
  pub halted : IsHalted t

reconcile-IsUntouched :
    (now : ℕ) (answers : Answers) (s : System)
    → IsHalted s
    → IsUntouched s (reconcile now answers s)
unfolding reconcile
reconcile-IsUntouched now answers s h = waiting (is_waiting_to_retry now s.controller.retry_after)
  where
    adopted :
        (b : Bool)
        → s.controller.stopped ≡ b
        → IsUntouched s (
            if b
            then adopt_volume s
            else advance (next_item (snapshot s.db).items) answers (adopt_volume s))
    adopted true e = record {
      same_db = refl;
      same_effects = refl;
      halted = record { stopped_now = h.stopped_now; nothing_loaded = h.nothing_loaded };
    }
    adopted false e = absurd (true≢false (sym h.stopped_now ∙ e))

    waiting :
        (b : Bool)
        → IsUntouched s (
            if b
            then s
            else (if s.controller.stopped
                then adopt_volume s
                else advance (next_item (snapshot s.db).items) answers (adopt_volume s)))
    waiting true = record { same_db = refl; same_effects = refl; halted = h }
    waiting false = adopted s.controller.stopped refl

handle_event-IsUntouched :
    (now : ℕ) (type : EventType) (e : Event) (s : System) → IsHalted s → dispatch type now e s ≡ s
unfolding on_state on_ended on_failed
handle_event-IsUntouched now event_state e s h = simp h.stopped_now
handle_event-IsUntouched now event_ended e s h = simp h.nothing_loaded
handle_event-IsUntouched now event_failed e s h = simp h.nothing_loaded

happens-IsUntouched : (h : Happening) (s : System) → IsHalted s → IsUntouched s (happens h s)
unfolding handle_event
happens-IsUntouched (ticks now answers) s v = reconcile-IsUntouched now answers s v
happens-IsUntouched (reports now e) s v =
    subst (IsUntouched s) (sym (handle_event-IsUntouched now e.type e s v))
      (record { same_db = refl; same_effects = refl; halted = v })

-- Once the controller is stopped with nothing loaded, the rounds of the loop and the events of the
-- player, in any number and order, change no row and no state, call nothing, and leave it stopped.
pub happen_all-IsUntouched :
    (happenings : List Happening) (s : System)
    → IsHalted s
    → IsUntouched s (happen_all happenings s)
happen_all-IsUntouched [] s v = record { same_db = refl; same_effects = refl; halted = v }
happen_all-IsUntouched (h ∷ rest) s v =
    let first = happens-IsUntouched h s v in
    let later = happen_all-IsUntouched rest (happens h s) first.halted in
    record {
      same_db = later.same_db ∙ first.same_db;
      same_effects = later.same_effects ∙ first.same_effects;
      halted = later.halted;
    }

-- Stop, pause and resume, each obeyed by the player.
abbrev pub stop_pause_resume : System → System
stop_pause_resume s = (resume none (pause none (stop none s).0).0).0

-- After a stop, a pause and a resume that the player all obeys, the state of the queue says that it is
-- playing, while the controller is still stopped, and whatever happens then changes and calls nothing.
pub stop_pause_resume-stuck :
    (happenings : List Happening) (s : System)
    → ((snapshot (stop_pause_resume s).db).playback.status ≡ playing)
      × IsUntouched (stop_pause_resume s) (happen_all happenings (stop_pause_resume s))
unfolding resume pause stop command_pause set_paused reset_playback snapshot
stop_pause_resume-stuck happenings s = (
  refl,
  happen_all-IsUntouched happenings (stop_pause_resume s)
      (record { stopped_now = refl; nothing_loaded = refl }),
)
