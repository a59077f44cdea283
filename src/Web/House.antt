-- ===== src/Web/House.antt =====
-- What the handlers of internal/app/auth.go and internal/app/admin.go share: the state, the requests
-- and the replies. A body is what the JSON decoder answers, `none` on its error.
use raspi_media_player.Base.{ℕ, String, Bool, Option, List}
use raspi_media_player.Accounts.Rows.{
  User, SessionRow, Session, IssuedSession, Accounts, Crypto, Draw,
}
use raspi_media_player.Api.Limiter.{RateLimiter}
use raspi_media_player.Api.Requests.{Request, Response, Server}
use raspi_media_player.Api.Submission.{Endpoint}
use raspi_media_player.Config.Store.{Definition, SettingsStore}

pub record Credentials : Type 0 where
  pub username : String
  pub password : String
  pub password_confirmation : String

pub record SetupRequest : Type 0 where
  pub credentials : Credentials
  pub access_mode : String
  pub lastfm_api_key : String

-- The body of `setAutoQueue`.
pub record AutoQueueRequest : Type 0 where
  pub enabled : Option Bool
  pub mode : Option String
  pub artists : Option String
  pub genres : Option String

-- The routes of the mux. Those of the other handlers, which write neither accounts nor settings, are one;
-- what some of them write of the queue, the library and the playback is left out here.
pub data Route : Type 0 where
  shows_setup lists_settings lists_users shows_session logs_out lists_sessions shows_auto_queue :
      Route
  completes_setup : Option SetupRequest → Route
  updates_setting : String → Option String → Route
  deletes_setting : String → Route
  updates_role : String → Option Bool → Route
  asks_username revokes_session : String → Route
  logs_in signs_up : Option Credentials → Route
  sets_auto_queue : Option AutoQueueRequest → Route
  queues : Endpoint → Route
  elsewhere : String → String → Route

-- `asked` has the address and the clock of the request, and its headers for the queue. `visit` says in
-- which order the keys of a Go map are visited, which is not the same from run to run.
pub record WebRequest : Type 0 where
  pub route : Route
  pub session_cookie : Option String
  pub csrf_header : String
  pub asked : Request
  pub draw : Draw
  pub nonce : String
  pub visit : String → ℕ

pub data Reply : Type 0 where
  refuses : ℕ → String → Reply
  says : ℕ → String → Reply
  wants_account : String → Reply
  issues : ℕ → IssuedSession → Reply
  clears_cookies : String → Reply
  shows_identity : Option Session → Reply
  gives_sessions : List SessionRow → String → Reply
  gives_users : List User → Reply
  gives_settings : List Definition → Reply
  gives_availability : String → Bool → Reply
  gives_setup : Bool → Reply
  no_auto_queue : Reply
  gives_auto_queue : Bool → String → String → String → String → Reply
  from_queue : Response → Reply
  from_elsewhere : Option Session → Reply

-- The state of the application. The server of the queue has its own tables.
pub record House : Type 0 where
  pub crypto : Crypto
  pub accounts : Accounts
  pub auth_limiter : RateLimiter
  pub settings : SettingsStore
  pub installed : Bool
  pub access_mode : String
  pub server : Server
