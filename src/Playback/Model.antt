-- ===== src/Playback/Model.antt =====
-- internal/playback/controller.go and internal/player/player.go: the state of the controller, the
-- events of the player, and the calls that go out.
use raspi_media_player.Base.{ℕ, ℤ, String, Bool, Option, List, ◌++◌, [], ◌∷◌}
use raspi_media_player.Queue.Rows.{Db, Result, ok, err, Status}

pub record PlayerState : Type 0 where
  pub status : Status
  pub title : String
  pub position_seconds : ℕ
  pub duration_seconds : ℕ
  pub paused : Bool
  pub buffering : Bool
  pub volume : ℤ
  pub error : String

pub data EventType : Type 0 where
  event_state event_ended event_failed : EventType

pub record Event : Type 0 where
  pub type : EventType
  pub state : PlayerState
  pub error : Option String

-- An error of the player: `ErrUnavailable`, or another with its message.
pub data PlayerError : Type 0 where
  player_unavailable : PlayerError
  player_failed : String → PlayerError

abbrev pub message : PlayerError → String
message player_unavailable = "player unavailable"
message (player_failed text) = text

-- What the controller asks of the player, of the history and of the observer of titles.
pub data Effect : Type 0 where
  loads : String → Effect
  volumes : ℤ → Effect
  pauses : Bool → Effect
  seeks : ℕ → Effect
  stops : Effect
  history_started : String → String → String → String → Effect
  history_title : String → String → Effect
  history_finished : String → String → String → Option String → Effect
  observed : String → Effect

-- The maps and flags of `Controller`. No item is loaded where `loaded_id` is the empty text.
pub record Controller : Type 0 where
  pub loaded_id : String
  pub stopped : Bool
  pub retry_limit : ℕ
  pub retries : List (String × ℕ)
  pub retry_after : Option ℕ
  pub desired_volume : ℤ
  pub last_title : String
  pub commanded_pause : Option Bool
  pub has_history : Bool
  pub has_metadata : Bool

-- The controller, the database, and the calls that went out so far, the latest last.
pub record System : Type 0 where
  pub controller : Controller
  pub db : Db
  pub effects : List Effect

abbrev pub emit : Effect → System → System
emit e s = record s { effects = s.effects ++ e ∷ [] }

abbrev pub with_db : Db → System → System
with_db db s = record s { db = db }

-- A queue call whose error is only logged.
abbrev pub attempt : Result Db → System → System
attempt (ok db) s = record s { db = db }
attempt (err e) s = s

abbrev pub unload : System → System
unload s = record s { controller = record s.controller { loaded_id = "" } }
