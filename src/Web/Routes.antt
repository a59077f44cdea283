-- ===== src/Web/Routes.antt =====
-- The chain of internal/app/app.go: `authenticate`, `requireInstallation`, `protectMutations`,
-- `enforceAccess`, and the mux behind them. Logs and the cookie of a listener are left out.
use Prim.Native.String as Text
use raspi_media_player.Base.{
  ℕ, String, Bool, true, false, not, Option, none, some, List, [], ◌∷◌, ◌&&◌, ◌||◌, map, same, ◌==◌,
  codes, if◌then◌else◌,
}
use raspi_media_player.Queue.Rows.{UserRow}
use raspi_media_player.Accounts.Rows.{Account, Session, Accounts, Answer, gives, denies}
use raspi_media_player.Accounts.Sessions.{resolve_session, verify_csrf}
use raspi_media_player.Config.Store.{Reading, reads, unreadable, value}
use raspi_media_player.Api.Requests.{Identity, Request, Server}
use raspi_media_player.Api.Submission.{
  Endpoint, handle, gets_queue, clears_queue, skips_item, withdraws_skip, removes_item,
  withdraws_removal, reorders_queue, adds_item,
}
use raspi_media_player.Web.House.{
  Route, shows_setup, lists_settings, lists_users, shows_session, logs_out, lists_sessions,
  completes_setup, updates_setting, deletes_setting, updates_role, asks_username, revokes_session,
  logs_in, signs_up, shows_auto_queue, sets_auto_queue, queues, elsewhere, WebRequest, House, Reply,
  refuses, shows_identity, gives_setup, from_queue, from_elsewhere,
}
use raspi_media_player.Web.Signing.{
  username_availability, login, signup, logout, sessions_listed, revoke_session,
}
use raspi_media_player.Web.Admin.{
  complete_setup, list_admin_settings, update_admin_setting, delete_admin_setting, list_admin_users,
  update_admin_role,
}
use raspi_media_player.Web.AutoQueue.{auto_queue_status, set_auto_queue}

-- The methods and the paths of the patterns in `New`.
abbrev pub queue_method : Endpoint → String
queue_method gets_queue = "GET"
queue_method clears_queue = "DELETE"
queue_method skips_item = "POST"
queue_method withdraws_skip = "DELETE"
queue_method (removes_item id) = "DELETE"
queue_method (withdraws_removal id) = "DELETE"
queue_method (reorders_queue order) = "PUT"
queue_method (adds_item id at body) = "POST"

abbrev pub queue_path : Endpoint → String
queue_path gets_queue = "/api/v1/queue"
queue_path clears_queue = "/api/v1/queue"
queue_path skips_item = "/api/v1/queue/skip"
queue_path withdraws_skip = "/api/v1/queue/skip"
queue_path (removes_item id) = Text.◌++◌ "/api/v1/queue/items/" id
queue_path (withdraws_removal id) = Text.◌++◌ "/api/v1/queue/items/" (Text.◌++◌ id "/removal-vote")
queue_path (reorders_queue order) = "/api/v1/queue/order"
queue_path (adds_item id at body) = "/api/v1/queue/items"

abbrev pub method : Route → String
method shows_setup = "GET"
method lists_settings = "GET"
method lists_users = "GET"
method shows_session = "GET"
method logs_out = "POST"
method lists_sessions = "GET"
method (completes_setup body) = "POST"
method (updates_setting key body) = "PUT"
method (deletes_setting key) = "DELETE"
method (updates_role id body) = "PUT"
method (asks_username name) = "GET"
method (revokes_session id) = "DELETE"
method (logs_in body) = "POST"
method (signs_up body) = "POST"
method shows_auto_queue = "GET"
method (sets_auto_queue body) = "PUT"
method (queues e) = queue_method e
method (elsewhere m p) = m

abbrev pub path : Route → String
path shows_setup = "/api/v1/setup/status"
path lists_settings = "/api/v1/admin/settings"
path lists_users = "/api/v1/admin/users"
path shows_session = "/api/v1/auth/session"
path logs_out = "/api/v1/auth/logout"
path lists_sessions = "/api/v1/auth/sessions"
path (completes_setup body) = "/api/v1/setup/complete"
path (updates_setting key body) = Text.◌++◌ "/api/v1/admin/settings/" key
path (deletes_setting key) = Text.◌++◌ "/api/v1/admin/settings/" key
path (updates_role id body) = Text.◌++◌ "/api/v1/admin/users/" (Text.◌++◌ id "/role")
path (asks_username name) = Text.◌++◌ "/api/v1/auth/usernames/" name
path (revokes_session id) = Text.◌++◌ "/api/v1/auth/sessions/" id
path (logs_in body) = "/api/v1/auth/login"
path (signs_up body) = "/api/v1/auth/signup"
path shows_auto_queue = "/api/v1/autoqueue"
path (sets_auto_queue body) = "/api/v1/autoqueue"
path (queues e) = queue_path e
path (elsewhere m p) = p

-- `strings.HasPrefix`
abbrev pub starts_with : List ℕ → List ℕ → Bool
starts_with [] cs = true
starts_with (p ∷ ps) [] = false
starts_with (p ∷ ps) (c ∷ cs) = p == c && starts_with ps cs

abbrev pub has_prefix : String → String → Bool
has_prefix p s = starts_with (codes p) (codes s)

-- `authenticate`: the session of the cookie, if it resolves.
abbrev pub identified : Accounts × Answer Session → House → House × Option Session
identified (a, gives t) h = (record h { accounts = a }, some t)
identified (a, denies e) h = (record h { accounts = a }, none)

abbrev pub by_cookie : Option String → ℕ → House → House × Option Session
by_cookie none now h = (h, none)
by_cookie (some token) now h = identified (resolve_session h.crypto token now h.accounts) h

unfoldable pub authenticate : WebRequest → House → House × Option Session
authenticate r h = by_cookie r.session_cookie r.draw.now h

-- What `requireInstallation` lets through before the installation.
abbrev pub needs_no_installation : String → Bool
needs_no_installation p =
    same p "/api/v1/setup/status"
    || same p "/api/v1/setup/complete"
    || has_prefix "/api/v1/health/" p
    || same p "/api/v1/version"
    || not (has_prefix "/api/" p)

abbrev pub is_mutation : String → Bool
is_mutation m = same m "POST" || same m "PUT" || same m "PATCH" || same m "DELETE"

abbrev pub is_exempt : String → Bool
is_exempt p = same p "/api/v1/auth/login" || same p "/api/v1/auth/signup"

-- `protectMutations` stops a request with a session that has no token of its own.
abbrev pub is_forged : WebRequest → Option Session → House → Bool
is_forged r none h = false
is_forged r (some t) h =
    is_mutation (method r.route)
    && not (is_exempt (path r.route))
    && not (verify_csrf h.crypto t.id r.csrf_header h.accounts)

abbrev pub is_protected : String → Bool
is_protected p =
    has_prefix "/api/v1/queue" p
    || has_prefix "/api/v1/playback" p
    || has_prefix "/api/v1/autoqueue" p

abbrev pub is_anonymous : Option Session → Bool
is_anonymous none = true
is_anonymous (some t) = false

-- `enforceAccess` stops a request without a session.
abbrev pub needs_session : WebRequest → Option Session → House → Bool
needs_session r identity h =
    same h.access_mode "accounts_required"
    && is_protected (path r.route)
    && not (same (method r.route) "GET")
    && is_anonymous identity

abbrev pub as_identity : Option Session → Option Identity
as_identity none = none
as_identity (some t) =
    some
      (record { user_id = t.user.id; username = t.user.username; is_admin = t.user.administrator })

-- The queue reads the settings and the users of the same database.
abbrev pub readable : Reading → Option String
readable (reads text) = some text
readable (unreadable e) = none

abbrev pub user_row : Account → UserRow
user_row u = record { user_id = u.id; username = u.username }

abbrev pub server_of : House → Server
server_of h = record (h.server) {
  db = record (h.server.db) { users = map user_row h.accounts.users };
  settings = λ key. readable (value key h.settings);
}

abbrev pub at_queue : Endpoint → Request → House → House × Reply
at_queue e r h =
    let (server, response) = handle e r (server_of h) in
    (record h { server = server }, from_queue response)

unfoldable pub dispatch : Route → WebRequest → Option Session → House → House × Reply
dispatch shows_setup r identity h = (h, gives_setup h.installed)
dispatch lists_settings r identity h = list_admin_settings identity h
dispatch lists_users r identity h = list_admin_users identity h
dispatch shows_session r identity h = (h, shows_identity identity)
dispatch logs_out r identity h = logout identity h
dispatch lists_sessions r identity h = sessions_listed identity r.draw.now h
dispatch (completes_setup body) r identity h = complete_setup body r h
dispatch (updates_setting key body) r identity h = update_admin_setting key body r.nonce identity h
dispatch (deletes_setting key) r identity h = delete_admin_setting key r.nonce identity h
dispatch (updates_role id body) r identity h = update_admin_role id body identity h
dispatch (asks_username name) r identity h = username_availability name h
dispatch (revokes_session id) r identity h = revoke_session id identity h
dispatch (logs_in body) r identity h = login body r h
dispatch (signs_up body) r identity h = signup body r h
dispatch shows_auto_queue r identity h = (h, auto_queue_status h.settings)
dispatch (sets_auto_queue body) r identity h = set_auto_queue body r h
dispatch (queues e) r identity h =
    at_queue e (record (r.asked) { identity = as_identity identity }) h
dispatch (elsewhere m p) r identity h = (h, from_elsewhere identity)

-- What stands before the mux, in the order of the chain.
abbrev pub guarded : WebRequest → Option Session → House → House × Reply
guarded r identity h =
    if not h.installed && not (needs_no_installation (path r.route))
    then (h, refuses 503 "setup_required")
    else (if is_forged r identity h
        then (h, refuses 403 "csrf_required")
        else (if needs_session r identity h
            then (h, refuses 401 "authentication_required")
            else dispatch r.route r identity h))

unfoldable pub respond : WebRequest → House → House × Reply
respond r h = let (h', identity) = authenticate r h in guarded r identity h'
