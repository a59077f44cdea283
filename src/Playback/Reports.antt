-- ===== src/Playback/Reports.antt =====
-- internal/playback/controller.go: `handleEvent` keeps the controller consistent.
use raspi_media_player.Base.{
  ℕ, ◌+◌, ◌≤◌, ◌<◌, String, Bool, true, false, not, refl, Option, none, some, ◌&&◌, All-keep, same,
  ltb, if◌then◌else◌, insert, Bool-cases, inl, inr, arith,
}
use raspi_media_player.Queue.Rows.{idle, unavailable}
use raspi_media_player.Queue.Calls.{updates_playback, finishes, retries, run}
use raspi_media_player.Queue.Playing.{finish_current, reset_playback}
use raspi_media_player.Playback.Model.{
  PlayerState, Event, EventType, event_state, event_ended, event_failed, System, with_db, attempt,
  history_finished, observed,
}
use raspi_media_player.Playback.Events.{
  report, on_state, on_ended, on_failed, retry_item, fail_item, dispatch, attempts_of, observe,
  note_title, finish_history, forget, drop_retries, stored_state, failure_of, is_unavailable,
  is_idle, settle_pause, half_second,
}
use raspi_media_player.Playback.Steps.{IsConsistent}
use raspi_media_player.Playback.Consistency.{
  emit-IsConsistent, attempt-IsConsistent, reset-IsConsistent, unload-IsConsistent,
}

-- A test that decides between two consistent systems.
either-IsConsistent :
    (b : Bool) {s t : System} → IsConsistent s → IsConsistent t → IsConsistent (if b then s else t)
either-IsConsistent true v w = v
either-IsConsistent false v w = w

observe-IsConsistent :
    (title : String) (s : System) → IsConsistent s → IsConsistent (observe title s)
observe-IsConsistent title s v =
    either-IsConsistent (s.controller.has_metadata && not (same title ""))
      (emit-IsConsistent (observed title) s v) v

note_title-IsConsistent :
    (title : String) (s : System) → IsConsistent s → IsConsistent (note_title title s)
note_title-IsConsistent title s v =
    either-IsConsistent
      (s.controller.has_history && not (same title "") && not (same title s.controller.last_title))
      (record { database = v.database; bounded = v.bounded; quiet = v.quiet }) v

report-IsConsistent : (p : PlayerState) (s : System) → IsConsistent s → IsConsistent (report p s)
unfolding report run
report-IsConsistent p s v =
    let c = s.controller in
    let known : System = record s {
      controller = record c { commanded_pause = settle_pause p.paused c.commanded_pause };
    } in
    let call = updates_playback (stored_state p c.desired_volume c.commanded_pause) in
    note_title-IsConsistent p.title (observe p.title (attempt (run call s.db) known)) (
      observe-IsConsistent p.title (attempt (run call s.db) known) (
        attempt-IsConsistent call s.db known v.database
          (record { database = v.database; bounded = v.bounded; quiet = v.quiet })))

on_state-IsConsistent :
    (p : PlayerState) (s : System) → IsConsistent s → IsConsistent (on_state p s)
unfolding on_state
on_state-IsConsistent p s v = either-IsConsistent s.controller.stopped v (
    either-IsConsistent (is_unavailable p.status)
      (unload-IsConsistent (with_db (reset_playback unavailable p.error s.db) s)
        (reset-IsConsistent unavailable p.error s v))
      (either-IsConsistent (same s.controller.loaded_id "")
        (either-IsConsistent (is_idle p.status) (reset-IsConsistent idle "" s v) v)
        (report-IsConsistent p s v)))

drop_retries-IsConsistent : (s : System) → IsConsistent s → IsConsistent (drop_retries s)
drop_retries-IsConsistent s v = record {
  database = v.database;
  bounded =
      All-keep (λ e. e.1 ≤ s.controller.retry_limit) (λ e. not (same e.0 s.controller.loaded_id))
        s.controller.retries v.bounded;
  quiet = v.quiet;
}

finish_history-IsConsistent :
    (title outcome : String) (failure : Option String) (s : System)
    → IsConsistent s
    → IsConsistent (finish_history title outcome failure s)
finish_history-IsConsistent title outcome failure s v =
    either-IsConsistent s.controller.has_history
      (emit-IsConsistent (history_finished s.controller.loaded_id title outcome failure) s v) v

-- An item is over, whether it ended or failed: its row is finished, and nothing is loaded.
over-IsConsistent :
    (title outcome : String) (failure : Option String) (s : System)
    → IsConsistent s
    → IsConsistent (
        forget (
          attempt
            (finish_current s.controller.loaded_id failure s.db)
            (finish_history title outcome failure (drop_retries s))))
unfolding run
over-IsConsistent title outcome failure s v =
    let call = finishes s.controller.loaded_id failure in
    let told = finish_history title outcome failure (drop_retries s) in
    let over = attempt-IsConsistent call s.db told v.database (
      finish_history-IsConsistent title outcome failure (drop_retries s)
        (drop_retries-IsConsistent s v)) in
    record { database = over.database; bounded = over.bounded; quiet = inr refl }

on_ended-IsConsistent :
    (p : PlayerState) (s : System) → IsConsistent s → IsConsistent (on_ended p s)
unfolding on_ended
on_ended-IsConsistent p s v =
    either-IsConsistent (same s.controller.loaded_id "") v
      (over-IsConsistent p.title "completed" none s v)

retry_item-IsConsistent :
    (now : ℕ) (failure : String) (s : System)
    → attempts_of s.controller < s.controller.retry_limit
    → IsConsistent s
    → IsConsistent (retry_item now failure s)
unfolding retry_item run
retry_item-IsConsistent now failure s below v =
    let c = s.controller in
    let again : System = record s {
      controller = record c {
        retries = insert c.loaded_id (attempts_of c + 1) c.retries;
        loaded_id = "";
        retry_after = some (now + half_second);
      };
    } in
    attempt-IsConsistent (retries c.loaded_id (some failure)) s.db again v.database (record {
      database = v.database;
      bounded = (
        omega (arith, below),
        All-keep (λ e. e.1 ≤ c.retry_limit) (λ e. not (same e.0 c.loaded_id)) c.retries v.bounded,
      );
      quiet = inr refl;
    })

on_failed-IsConsistent :
    (now : ℕ) (error : Option String) (p : PlayerState) (s : System)
    → IsConsistent s
    → IsConsistent (on_failed now error p s)
unfolding on_failed fail_item
on_failed-IsConsistent now error p s v = elim (Bool-cases (same s.controller.loaded_id "")) [
  | inl e ↦ rw e v
  | inr e ↦ rw e (elim (Bool-cases (ltb (attempts_of s.controller) s.controller.retry_limit)) [
    | inl f ↦ rw f (retry_item-IsConsistent now (failure_of error) s (ground arith) v)
    | inr f ↦ rw f (over-IsConsistent p.title "failed" (some (failure_of error)) s v)
  ])
]

pub handle_event-IsConsistent :
    (now : ℕ) (type : EventType) (e : Event) (s : System)
    → IsConsistent s
    → IsConsistent (dispatch type now e s)
handle_event-IsConsistent now event_state e s v = on_state-IsConsistent e.state s v
handle_event-IsConsistent now event_ended e s v = on_ended-IsConsistent e.state s v
handle_event-IsConsistent now event_failed e s v = on_failed-IsConsistent now e.error e.state s v
