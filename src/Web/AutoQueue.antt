-- ===== src/Web/AutoQueue.antt =====
-- internal/app/autoqueue.go: the settings of the automatic queue, which anyone may write who passes the
-- chain of checks.
use raspi_media_player.Base.{
  ℕ, String, Bool, true, false, Option, none, some, List, [], ◌∷◌, ◌++◌, ◌&&◌, same, ltb,
  if◌then◌else◌, trim, is_space,
}
use raspi_media_player.Config.Store.{
  SettingsStore, Outcome, done, fails, Reading, reads, unreadable, set, value,
}
use raspi_media_player.Library.Store.{sorted_by}
use raspi_media_player.Web.House.{
  AutoQueueRequest, WebRequest, House, Reply, refuses, no_auto_queue, gives_auto_queue,
}
use raspi_media_player.Web.Signing.{internal_error}
use raspi_media_player.Web.Admin.{validate_setting}

-- A value, which is empty where it cannot be read.
abbrev pub text_of : Reading → String
text_of (reads text) = text
text_of (unreadable e) = ""

abbrev pub mode_of : String → String
mode_of mode = if same mode "" then "active_users" else mode

abbrev pub auto_queue_shown : Reading → SettingsStore → Reply
auto_queue_shown (unreadable e) s = no_auto_queue
auto_queue_shown (reads enabled) s =
    gives_auto_queue (same enabled "true") (text_of (value "auto_queue_depth" s))
      (mode_of (text_of (value "auto_queue_mode" s))) (text_of (value "auto_queue_artists" s))
      (text_of (value "auto_queue_genres" s))

unfoldable pub auto_queue_status : SettingsStore → Reply
auto_queue_status s = auto_queue_shown (value "auto_queue_enabled" s) s

abbrev pub shown_bool : Bool → String
shown_bool true = "true"
shown_bool false = "false"

abbrev pub update_enabled : Option Bool → List (String × String)
update_enabled none = []
update_enabled (some b) = ("auto_queue_enabled", shown_bool b) ∷ []

abbrev pub update_text : String → Option String → List (String × String)
update_text key none = []
update_text key (some text) = (key, trim is_space text) ∷ []

-- The map `updates`.
abbrev pub updates_of : AutoQueueRequest → List (String × String)
updates_of q =
    update_enabled q.enabled
    ++ (update_text "auto_queue_mode" q.mode
        ++ (update_text "auto_queue_artists" q.artists ++ update_text "auto_queue_genres" q.genres))

abbrev pub all_valid : List (String × String) → Bool
all_valid [] = true
all_valid ((key, text) ∷ updates) = validate_setting key text && all_valid updates

-- The loop over the updates stops at the first that fails, and those before it stay written.
abbrev pub set_then :
    Outcome → (SettingsStore → SettingsStore × Bool) → SettingsStore → SettingsStore × Bool
set_then (done s') rest s = rest s'
set_then (fails e) rest s = (s, false)

abbrev pub set_each : String → List (String × String) → SettingsStore → SettingsStore × Bool
set_each nonce [] s = (s, true)
set_each nonce ((key, text) ∷ updates) s =
    set_then (set nonce key text s) (λ s'. set_each nonce updates s') s

-- The updates in the order in which the map is visited.
abbrev pub visited : (String → ℕ) → List (String × String) → List (String × String)
visited visit = sorted_by (λ a b. ltb (visit a.0) (visit b.0))

abbrev pub auto_queue_written : SettingsStore × Bool → House → House × Reply
auto_queue_written (s, true) h = (record h { settings = s }, auto_queue_status s)
auto_queue_written (s, false) h = (record h { settings = s }, internal_error)

abbrev pub auto_queue_checked : List (String × String) → WebRequest → House → House × Reply
auto_queue_checked [] r h = (h, refuses 400 "invalid_request")
auto_queue_checked (u ∷ updates) r h =
    if all_valid (u ∷ updates)
    then auto_queue_written (set_each r.nonce (visited r.visit (u ∷ updates)) h.settings) h
    else (h, refuses 422 "invalid_setting")

unfoldable pub set_auto_queue : Option AutoQueueRequest → WebRequest → House → House × Reply
set_auto_queue none r h = (h, refuses 400 "invalid_request")
set_auto_queue (some q) r h = auto_queue_checked (updates_of q) r h
