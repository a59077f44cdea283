-- ===== src/Web/Tests.antt =====
-- The application with two accounts, and the theorems on requests applied to it.
use raspi_media_player.Base.{◌≡◌, refl, String, true, false, none, some, List, [], ◌∷◌}
use raspi_media_player.Accounts.Rows.{SessionRow, gives}
use raspi_media_player.Accounts.Store.{shown_user}
use raspi_media_player.Accounts.Sessions.{resolve_session, verify_csrf, shown_session}
use raspi_media_player.Accounts.Tests.{plain_crypto, household, ann, ann_session, draw}
use raspi_media_player.Config.Store.{Definition, SettingsStore, set}
use raspi_media_player.Api.Submission.{skips_item}
use raspi_media_player.Api.Tests.{limiter, server, guest}
use raspi_media_player.Web.House.{
  Route, logs_out, updates_role, signs_up, sets_auto_queue, queues, refuses, shows_session,
  Credentials, WebRequest, House, clears_cookies,
}
use raspi_media_player.Web.Routes.{authenticate, dispatch, respond}
use raspi_media_player.Web.Admin.{validate_setting}
use raspi_media_player.Web.AutoQueue.{set_auto_queue}
use raspi_media_player.Web.Rights.{respond_all}
use raspi_media_player.Web.Authority.{IsEarnedChange, respond-IsEarnedChange}
use raspi_media_player.Web.Guards.{MayChange, respond-authorized}
use raspi_media_player.Web.Administrators.{IsAdministered, respond-IsAdministered}
use raspi_media_player.Web.Departure.{departing, returning, respond-logout}
use raspi_media_player.Web.Anonymous.{SameQueue, respond-anonymous}

abbrev no_settings : SettingsStore
no_settings = record { definitions = []; cipher = none; stored = [] }

abbrev house : House
house = record {
  crypto = plain_crypto;
  accounts = household;
  auth_limiter = limiter;
  settings = no_settings;
  installed = true;
  access_mode = "accounts_required";
  server = server;
}

abbrev ask : Route → WebRequest
ask route = record {
  route = route;
  session_cookie = some "token";
  csrf_header = "csrf";
  asked = guest;
  draw = draw;
  nonce = "n";
  visit = λ key. 0;
}

abbrev cleo : Credentials
cleo = record { username = "Cleo"; password = "password3"; password_confirmation = "password3" }

abbrev some_requests : List WebRequest
some_requests = ask (signs_up (some cleo)) ∷ ask (updates_role "b" (some true)) ∷ ask logs_out ∷ []

-- A house of open access with the settings of the automatic queue.
abbrev auto_queue_setting : String → Definition
auto_queue_setting key = record {
  key = key;
  label = "";
  category = "Auto-queue";
  value = "";
  secret = false;
  configured = false;
  read_only = false;
}

abbrev open_house : House
open_house = record house {
  access_mode = "open";
  settings = record {
    definitions =
        ("auto_queue_enabled", auto_queue_setting "auto_queue_enabled")
        ∷ ("auto_queue_artists", auto_queue_setting "auto_queue_artists")
        ∷ [];
    cipher = none;
    stored = ("site_name", "Home") ∷ [];
  };
}

abbrev enabling : WebRequest
enabling =
    record (ask (
      sets_auto_queue (
        some record {
          enabled = some true;
          mode = none;
          artists = some " The Band ";
          genres = none;
        }))) { session_cookie = none; csrf_header = "" }

-- Nobody is signed in, and the settings of the automatic queue are written.
enabled_by_nobody :
    (respond enabling open_house).0.settings.stored
    ≡ ("auto_queue_artists", "The Band")
      ∷ ("auto_queue_enabled", "true")
      ∷ ("site_name", "Home")
      ∷ []
unfolding respond authenticate dispatch set_auto_queue validate_setting set
enabled_by_nobody = refl

-- Where accounts are required, the same request is refused.
refused_to_nobody : respond enabling (record open_house { access_mode = "accounts_required" }) ≡ (
  record open_house { access_mode = "accounts_required" },
  refuses 401 "authentication_required",
)
unfolding respond authenticate
refused_to_nobody = refl

respond-IsEarnedChange_example :
    IsEarnedChange
      (signs_up (some cleo))
      (authenticate (ask (signs_up (some cleo))) house).1
      (authenticate (ask (signs_up (some cleo))) house).0
      (respond (ask (signs_up (some cleo))) house).0
respond-IsEarnedChange_example = respond-IsEarnedChange (ask (signs_up (some cleo))) house

respond-authorized_example :
    MayChange enabling
      (authenticate enabling open_house).1
      (authenticate enabling open_house).0
      (respond enabling open_house).0
respond-authorized_example = respond-authorized enabling open_house

respond-IsAdministered_example :
    IsAdministered
      (updates_role "b" (some true))
      (authenticate (ask (updates_role "b" (some true))) house).1
      house
      (respond (ask (updates_role "b" (some true))) house).0
respond-IsAdministered_example = respond-IsAdministered (ask (updates_role "b" (some true))) house

abbrev seen_session : SessionRow
seen_session = record ann_session { last_seen_at = 0 }

resolves_ann : resolve_session plain_crypto "token" 100 household ≡ (
  record household { sessions = seen_session ∷ [] },
  gives (shown_session ann_session (shown_user ann)),
)
unfolding resolve_session
resolves_ann = refl

own_token :
    verify_csrf plain_crypto "s1" "csrf" (record household { sessions = seen_session ∷ [] }) ≡ true
unfolding verify_csrf
own_token = refl

respond-logout_example :
    ((respond (departing "token" (ask shows_session)) house).1 ≡ clears_cookies "logged_out")
    × ((authenticate
          (returning "token" (ask shows_session))
          (respond_all some_requests (respond (departing "token" (ask shows_session)) house).0)).1
        ≡ none)
respond-logout_example =
    respond-logout "token" (ask shows_session) (shown_session ann_session (shown_user ann)) house
      (record household { sessions = seen_session ∷ [] }) resolves_ann own_token refl some_requests
      (ask shows_session)

abbrev visit : WebRequest
visit = record (ask (queues skips_item)) { session_cookie = some "forged" }

nobody : (authenticate visit house).1 ≡ none
unfolding authenticate resolve_session
nobody = refl

respond-anonymous_example : SameQueue house (respond visit house).0
respond-anonymous_example = respond-anonymous skips_item visit house refl refl nobody
