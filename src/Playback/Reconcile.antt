-- ===== src/Playback/Reconcile.antt =====
-- internal/playback/controller.go: `reconcile`, which the loop runs four times a second.
use Prim.Native.String as Text
use raspi_media_player.Base.{
  ℕ, String, Bool, true, false, Option, none, some, List, [], ◌∷◌, same, ltb, if◌then◌else◌,
}
use raspi_media_player.Queue.Rows.{
  Db, Item, failed, Status, idle, stopped, unavailable, Result, ok, err,
}
use raspi_media_player.Queue.Store.{snapshot}
use raspi_media_player.Queue.Playing.{set_current, finish_current, reset_playback}
use raspi_media_player.Playback.Model.{
  PlayerError, player_unavailable, player_failed, message, loads, volumes, stops, history_started,
  System, emit, with_db, attempt, unload,
}

-- What `sources.Resolve` answers: the url to play, or an error.
pub data Resolution : Type 0 where
  playable : String → Resolution
  unresolved : String → Resolution

-- The answers of one round: of the source adapter, of `Load`, and whatever `SetVolume` says.
pub record Answers : Type 0 where
  pub resolve : String → String → Resolution
  pub load : String → Option PlayerError

abbrev pub is_waiting : Item → Bool
is_waiting item = elim item.status [ failed ↦ false | _ ↦ true ]

-- The first item that is queued or current.
abbrev pub next_item : List Item → Option Item
next_item [] = none
next_item (item ∷ items) = let rest = next_item items in if is_waiting item then some item else rest

abbrev pub is_settled : Status → Bool
is_settled idle = true
is_settled stopped = true
is_settled _ = false

-- Nothing to play: the player is stopped and the state becomes idle.
unfoldable pub settle : System → System
settle s =
    let halted = if same s.controller.loaded_id "" then s else unload (emit stops s) in
    if is_settled s.db.state.playback.status
    then halted
    else with_db (reset_playback idle "" halted.db) halted

-- The item is at the player.
unfoldable pub start_item : Item → System → System
start_item item s =
    let loaded = record s {
      controller = record s.controller { loaded_id = item.id; last_title = "" };
    } in
    if s.controller.has_history
    then emit (history_started item.id item.kind item.url item.submitter.user_id) loaded
    else loaded

unfoldable pub load_item : Option PlayerError → String → Item → System → System
unfolding start_item
load_item none url item s =
    start_item item (emit (volumes (snapshot s.db).playback.volume) (emit (loads url) s))
load_item (some player_unavailable) url item s =
    with_db (reset_playback unavailable (message player_unavailable) s.db) (emit (loads url) s)
load_item (some (player_failed text)) url item s =
    attempt (finish_current item.id (some text) s.db) (emit (loads url) s)

unfoldable pub play_item : Resolution → (String → Option PlayerError) → Item → System → System
unfolding load_item
play_item (unresolved text) load item s =
    attempt (finish_current item.id (some (Text.◌++◌ "resolve source: " text)) s.db) s
play_item (playable url) load item s = load_item (load url) url item s

abbrev pub select_item : Result Db → Answers → Item → System → System
select_item (err e) answers item s = s
select_item (ok db) answers item s =
    play_item (answers.resolve item.kind item.url) answers.load item (with_db db s)

abbrev pub advance : Option Item → Answers → System → System
advance none answers s = settle s
advance (some item) answers s =
    if same item.id s.controller.loaded_id
    then s
    else select_item (set_current item.id s.db) answers item s

abbrev pub is_waiting_to_retry : ℕ → Option ℕ → Bool
is_waiting_to_retry now none = false
is_waiting_to_retry now (some at) = ltb now at

abbrev pub adopt_volume : System → System
adopt_volume s = record s {
  controller = record s.controller { desired_volume = (snapshot s.db).playback.volume };
}

unfoldable pub reconcile : ℕ → Answers → System → System
unfolding settle play_item
reconcile now answers s =
    if is_waiting_to_retry now s.controller.retry_after
    then s
    else (if s.controller.stopped
        then adopt_volume s
        else advance (next_item (snapshot s.db).items) answers (adopt_volume s))
