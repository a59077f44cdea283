-- ===== src/Queue/Rows.antt =====
-- internal/queue/store.go and the tables `queue_items` and `queue_state` of the first migration:
-- rows, snapshots, errors, and the result of a fallible call.
use raspi_media_player.Base.{ℕ, ℤ, String, Bool, true, false, Option, List}

pub data Error : Type 0 where
  duplicate not_found conflict full : Error
  unique_violation check_violation foreign_key_violation : Error

pub data Result {ℓ} (A : Type ℓ) : Type ℓ where
  ok : A → Result A
  err : Error → Result A

-- A condition of the source, with what it returns where the condition fails.
abbrev pub guard : Bool → Error → Result (Unit {0})
guard false failure = err failure
guard true failure = ok tt

-- What follows a statement is left out after an error.
abbrev pub ◌>>=◌ {ℓ κ} : {V : Type ℓ} {W : Type κ} → Result V → (V → Result W) → Result W
err failure >>= rest = err failure
ok value >>= rest = rest value

abbrev pub ◌>>◌ {κ} : {W : Type κ} → Result (Unit {0}) → Result W → Result W
first >> rest = first >>= λ done. rest

infixl 5 ◌>>=◌ ◌>>◌
-- The column `playback_status` of a queue item.
pub data ItemStatus : Type 0 where
  queued current failed : ItemStatus

-- The column `playback_status` of the playback state.
pub data Status : Type 0 where
  idle loading playing paused buffering stopped unavailable retrying : Status

pub record Row : Type 0 where
  pub id : String
  pub source_kind : String
  pub source_url : String
  pub title : String
  pub display_name : String
  pub position : ℤ
  pub added_at : String
  pub submitter_user_id : Option String
  pub playback_status : ItemStatus
  pub playback_error : String

-- Seconds are only stored and passed on: whole numbers stand for them.
pub record PlaybackState : Type 0 where
  pub status : Status
  pub title : String
  pub position_seconds : ℕ
  pub duration_seconds : ℕ
  pub paused : Bool
  pub buffering : Bool
  pub volume : ℤ
  pub error : String

-- The one row of `queue_state`, without its time stamp, which nothing reads.
pub record StateRow : Type 0 where
  pub revision : ℕ
  pub current_item_id : Option String
  pub playback : PlaybackState

pub record UserRow : Type 0 where
  pub user_id : String
  pub username : String

pub record Db : Type 0 where
  pub items : List Row
  pub state : StateRow
  pub users : List UserRow
  pub station_urls : List String

pub record Submitter : Type 0 where
  pub user_id : String
  pub username : String
  pub kind : String
  pub display_name : String

pub record Item : Type 0 where
  pub id : String
  pub title : String
  pub kind : String
  pub url : String
  pub submitter : Submitter
  pub position : ℤ
  pub status : ItemStatus
  pub error : String
  pub added_at : String
  pub radio : Bool

pub record Snapshot : Type 0 where
  pub revision : ℕ
  pub items : List Item
  pub current_item_id : String
  pub playback : PlaybackState
