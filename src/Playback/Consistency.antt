-- ===== src/Playback/Consistency.antt =====
-- internal/playback/controller.go: every step keeps the controller consistent.
use Prim.Native.String as Text
use raspi_media_player.Base.{
  ℕ, String, Bool, true, false, ◌≡◌, refl, Option, none, some, same, if◌then◌else◌, Bool-cases, inl,
  inr,
}
use raspi_media_player.Queue.Rows.{Db, Item, Status, idle, unavailable, Result, ok, err}
use raspi_media_player.Queue.Store.{snapshot}
use raspi_media_player.Queue.Calls.{Call, sets_current, finishes, resets, run, IsWellFormed}
use raspi_media_player.Queue.Playing.{set_current, reset_playback}
use raspi_media_player.Queue.Invariant.{run-IsWellFormed}
use raspi_media_player.Playback.Model.{
  PlayerError, Effect, player_unavailable, player_failed, loads, volumes, stops, System, emit,
  with_db, attempt, unload,
}
use raspi_media_player.Playback.Reconcile.{
  Answers, Resolution, playable, unresolved, next_item, settle, start_item, load_item, play_item,
  select_item, advance, adopt_volume, reconcile, is_settled, is_waiting_to_retry,
}
use raspi_media_player.Playback.Steps.{IsConsistent}

pub emit-IsConsistent : (e : Effect) (s : System) → IsConsistent s → IsConsistent (emit e s)
emit-IsConsistent e s v = record { database = v.database; bounded = v.bounded; quiet = v.quiet }

-- A call whose error is only logged, on the database of the system.
pub attempt-IsConsistent :
    (c : Call) (db : Db) (s : System)
    → IsWellFormed db
    → IsConsistent s
    → IsConsistent (attempt (run c db) s)
attempt-IsConsistent c db s w v = go (run c db) refl
  where
    go : (r : Result Db) → run c db ≡ r → IsConsistent (attempt r s)
    go (ok db') h = record {
      database = run-IsWellFormed c db db' w h;
      bounded = v.bounded;
      quiet = v.quiet;
    }
    go (err e) h = v

pub reset-IsConsistent :
    (status : Status) (text : String) (s : System)
    → IsConsistent s
    → IsConsistent (with_db (reset_playback status text s.db) s)
unfolding run
reset-IsConsistent status text s v = attempt-IsConsistent (resets status text) s.db s v.database v

pub unload-IsConsistent : (s : System) → IsConsistent s → IsConsistent (unload s)
unload-IsConsistent s v = record { database = v.database; bounded = v.bounded; quiet = inr refl }

settle-IsConsistent : (s : System) → IsConsistent s → IsConsistent (settle s)
unfolding settle
settle-IsConsistent s v =
    let halted : IsConsistent (unload (emit stops s)) =
      unload-IsConsistent (emit stops s) (emit-IsConsistent stops s v) in
    elim (Bool-cases (same s.controller.loaded_id "")) [
      | inl e ↦ elim (Bool-cases (is_settled s.db.state.playback.status)) [
        | inl f ↦ rw (e, f) v
        | inr f ↦ rw (e, f) (reset-IsConsistent idle "" s v)
      ]
      | inr e ↦ elim (Bool-cases (is_settled s.db.state.playback.status)) [
        | inl f ↦ rw (e, f) halted
        | inr f ↦ rw (e, f) (reset-IsConsistent idle "" (unload (emit stops s)) halted)
      ]
    ]

start_item-IsConsistent :
    (item : Item) (s : System)
    → s.controller.stopped ≡ false
    → IsConsistent s
    → IsConsistent (start_item item s)
unfolding start_item
start_item-IsConsistent item s running v = elim (Bool-cases s.controller.has_history) [
  | inl e ↦ rw e (record { database = v.database; bounded = v.bounded; quiet = inl running })
  | inr e ↦ rw e (record { database = v.database; bounded = v.bounded; quiet = inl running })
]

load_item-IsConsistent :
    (answer : Option PlayerError) (url : String) (item : Item) (s : System)
    → s.controller.stopped ≡ false
    → IsConsistent s
    → IsConsistent (load_item answer url item s)
unfolding load_item run
load_item-IsConsistent none url item s running v =
    let loud = emit (volumes (snapshot s.db).playback.volume) (emit (loads url) s) in
    start_item-IsConsistent item loud running
      (record { database = v.database; bounded = v.bounded; quiet = v.quiet })
load_item-IsConsistent (some player_unavailable) url item s running v =
    reset-IsConsistent unavailable "player unavailable" (emit (loads url) s)
      (emit-IsConsistent (loads url) s v)
load_item-IsConsistent (some (player_failed text)) url item s running v =
    attempt-IsConsistent (finishes item.id (some text)) s.db (emit (loads url) s) v.database
      (emit-IsConsistent (loads url) s v)

play_item-IsConsistent :
    (answer : Resolution) (load : String → Option PlayerError) (item : Item) (s : System)
    → s.controller.stopped ≡ false
    → IsConsistent s
    → IsConsistent (play_item answer load item s)
unfolding play_item run
play_item-IsConsistent (unresolved text) load item s running v =
    attempt-IsConsistent (finishes item.id (some (Text.◌++◌ "resolve source: " text))) s.db s
      v.database v
play_item-IsConsistent (playable url) load item s running v =
    load_item-IsConsistent (load url) url item s running v

advance-IsConsistent :
    (next : Option Item) (answers : Answers) (s : System)
    → s.controller.stopped ≡ false
    → IsConsistent s
    → IsConsistent (advance next answers s)
unfolding run
advance-IsConsistent none answers s running v = settle-IsConsistent s v
advance-IsConsistent (some item) answers s running v =
    elim (Bool-cases (same item.id s.controller.loaded_id)) [
      | inl e ↦ rw e v
      | inr e ↦ rw e (select (set_current item.id s.db) refl)
    ]
  where
    select :
        (r : Result Db) → set_current item.id s.db ≡ r → IsConsistent (select_item r answers item s)
    select (err e) h = v
    select (ok db) h =
        play_item-IsConsistent (answers.resolve item.kind item.url) answers.load item (with_db db s)
          running
          (record {
            database = run-IsWellFormed (sets_current item.id) s.db db v.database h;
            bounded = v.bounded;
            quiet = v.quiet;
          })

pub reconcile-IsConsistent :
    (now : ℕ) (answers : Answers) (s : System)
    → IsConsistent s
    → IsConsistent (reconcile now answers s)
unfolding reconcile
reconcile-IsConsistent now answers s v =
    elim (Bool-cases (is_waiting_to_retry now s.controller.retry_after)) [
      | inl e ↦ rw e v
      | inr e ↦ rw e (unless_stopped s.controller.stopped refl)
    ]
  where
    next : System
    next = advance (next_item (snapshot s.db).items) answers (adopt_volume s)

    adopted : IsConsistent (adopt_volume s)
    adopted = record { database = v.database; bounded = v.bounded; quiet = v.quiet }

    unless_stopped :
        (b : Bool) → s.controller.stopped ≡ b → IsConsistent (if b then adopt_volume s else next)
    unless_stopped true h = adopted
    unless_stopped false h =
        advance-IsConsistent (next_item (snapshot s.db).items) answers (adopt_volume s) h adopted
