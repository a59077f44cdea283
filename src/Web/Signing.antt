-- ===== src/Web/Signing.antt =====
-- internal/app/auth.go: the handlers of accounts and sessions.
use raspi_media_player.Base.{
  ℕ, String, Bool, true, false, Option, none, some, List, same, if◌then◌else◌,
}
use raspi_media_player.Accounts.Rows.{
  User, Session, IssuedSession, Accounts, AuthError, user_not_found, username_taken,
  session_not_found, invalid_username, invalid_password, Answer, gives, denies,
}
use raspi_media_player.Accounts.Names.{normalize_username}
use raspi_media_player.Accounts.Store.{find_user, create_session, create_user_and_session}
use raspi_media_player.Accounts.Sessions.{revoke, list_sessions}
use raspi_media_player.Api.Limiter.{allow}
use raspi_media_player.Api.Requests.{client_ip}
use raspi_media_player.Web.House.{
  Credentials, WebRequest, House, Reply, refuses, says, wants_account, issues, clears_cookies,
  gives_sessions, gives_availability,
}

abbrev pub internal_error : Reply
internal_error = refuses 500 "internal_error"

abbrev pub sign_in_first : Reply
sign_in_first = refuses 401 "authentication_required"

-- What `FindUser` answered, about whether a name is free.
abbrev pub availability : String → Answer (User × List ℕ) → Reply
availability name (gives found) = gives_availability name false
availability name (denies user_not_found) = gives_availability name true
availability name (denies e) = internal_error

abbrev pub check_username : Option String → House → Reply
check_username none h = refuses 422 "invalid_username"
check_username (some name) h = availability name (find_user name h.accounts)

unfoldable pub username_availability : String → House → House × Reply
username_availability name h = (h, check_username (normalize_username name) h)

-- The session that a handler starts, and `issueSession`.
abbrev pub session_started : ℕ → Answer (Accounts × IssuedSession) → House → House × Reply
session_started status (denies e) h = (h, internal_error)
session_started status (gives (a, issued)) h = (record h { accounts = a }, issues status issued)

abbrev pub password_checked : Option Bool → User → WebRequest → House → House × Reply
password_checked none u r h = (h, internal_error)
password_checked (some false) u r h = (h, refuses 401 "invalid_credentials")
password_checked (some true) u r h =
    session_started 200 (create_session h.crypto r.draw u h.accounts) h

abbrev pub user_found :
    String → Answer (User × List ℕ) → Credentials → WebRequest → House → House × Reply
user_found name (denies user_not_found) c r h = (h, wants_account name)
user_found name (denies e) c r h = (h, internal_error)
user_found name (gives (u, hash)) c r h =
    password_checked (h.crypto.verify_password c.password hash) u r h

abbrev pub name_checked : Option String → Credentials → WebRequest → House → House × Reply
name_checked none c r h = (h, refuses 422 "invalid_username")
name_checked (some name) c r h = user_found name (find_user name h.accounts) c r h

unfoldable pub login_allowed : Option Credentials → WebRequest → House → House × Reply
login_allowed none r h = (h, refuses 400 "invalid_request")
login_allowed (some c) r h = name_checked (normalize_username c.username) c r h

-- The limiter of the authentication, which counts the request.
abbrev pub limited : (WebRequest → House → House × Reply) → WebRequest → House → House × Reply
limited handler r h =
    let (limiter, ok) = allow (client_ip r.asked) r.asked.now h.auth_limiter in
    let h' : House = record h { auth_limiter = limiter } in
    if ok then handler r h' else (h', refuses 429 "rate_limited")

unfoldable pub login : Option Credentials → WebRequest → House → House × Reply
login body = limited (login_allowed body)

-- What signing up answers to an error: the message of the error has the word, or it is internal.
abbrev pub account_refused : AuthError → Reply
account_refused username_taken = refuses 409 "username_taken"
account_refused invalid_username = refuses 422 "invalid_account"
account_refused invalid_password = refuses 422 "invalid_account"
account_refused e = internal_error

abbrev pub account_created : Answer (Accounts × IssuedSession) → House → House × Reply
account_created (denies e) h = (h, account_refused e)
account_created (gives (a, issued)) h = (record h { accounts = a }, issues 201 issued)

unfoldable pub signup_allowed : Option Credentials → WebRequest → House → House × Reply
signup_allowed none r h = (h, refuses 400 "invalid_request")
signup_allowed (some c) r h =
    if same c.password c.password_confirmation
    then account_created (create_user_and_session h.crypto r.draw c.username c.password h.accounts)
        h
    else (h, refuses 422 "password_confirmation_mismatch")

unfoldable pub signup : Option Credentials → WebRequest → House → House × Reply
signup body = limited (signup_allowed body)

abbrev pub logged_out : Answer Accounts → House → House × Reply
logged_out (gives a) h = (record h { accounts = a }, clears_cookies "logged_out")
logged_out (denies session_not_found) h = (h, clears_cookies "logged_out")
logged_out (denies e) h = (h, internal_error)

unfoldable pub logout : Option Session → House → House × Reply
logout none h = (h, sign_in_first)
logout (some t) h = logged_out (revoke t.user.id t.id h.accounts) h

unfoldable pub sessions_listed : Option Session → ℕ → House → House × Reply
sessions_listed none now h = (h, sign_in_first)
sessions_listed (some t) now h = (h, gives_sessions (list_sessions t.user.id now h.accounts) t.id)

abbrev pub session_revoked : String → Session → Answer Accounts → House → House × Reply
session_revoked id t (denies session_not_found) h = (h, refuses 404 "session_not_found")
session_revoked id t (denies e) h = (h, internal_error)
session_revoked id t (gives a) h = (
  record h { accounts = a },
  if same id t.id then clears_cookies "revoked" else says 200 "revoked",
)

unfoldable pub revoke_session : String → Option Session → House → House × Reply
revoke_session id none h = (h, sign_in_first)
revoke_session id (some t) h = session_revoked id t (revoke t.user.id id h.accounts) h
