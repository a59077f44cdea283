-- ===== src/Web/Admin.antt =====
-- internal/app/admin.go: the installation, the settings and the roles.
use raspi_media_player.Base.{
  ℕ, ℤ, pos, negsuc, String, Bool, true, false, not, Option, none, some, List, [], ◌∷◌, ◌&&◌, ◌||◌,
  same, leb, byte_length, atoi, if◌then◌else◌,
}
use raspi_media_player.Accounts.Rows.{
  Session, IssuedSession, Accounts, AuthError, user_not_found, username_taken, invalid_username,
  invalid_password, already_complete, final_administrator, Answer, gives, denies,
}
use raspi_media_player.Accounts.Store.{create_initial_admin_and_session, set_admin, list_users}
use raspi_media_player.Config.Store.{
  SettingsStore, Outcome, done, fails, unknown_setting, no_encryption, set, listed,
}
use raspi_media_player.Web.House.{
  SetupRequest, WebRequest, House, Reply, refuses, says, issues, gives_users, gives_settings,
}
use raspi_media_player.Web.Signing.{internal_error}

abbrev pub is_one_of : String → List String → Bool
is_one_of x [] = false
is_one_of x (y ∷ ys) = same x y || is_one_of x ys

-- `strconv.Atoi` with bounds on the result.
abbrev pub number_within : ℕ → ℕ → Option ℤ → Bool
number_within low high none = false
number_within low high (some (negsuc n)) = false
number_within low high (some (pos n)) = leb low n && leb n high

abbrev pub access_modes : List String
access_modes = "open" ∷ "accounts_optional" ∷ "accounts_required" ∷ []

abbrev pub switch_settings : List String
switch_settings =
    "metadata_enabled" ∷ "vote_enabled" ∷ "youtube_search_enabled" ∷ "secure_cookie"
    ∷ "player_enabled" ∷ "auto_queue_enabled" ∷ []

abbrev pub number_settings : List String
number_settings =
    "queue_limit" ∷ "queue_rate" ∷ "cache_seconds" ∷ "player_retries" ∷ "history_days"
    ∷ "metadata_cache_days" ∷ "metadata_max_inflight" ∷ "vote_active_seconds"
    ∷ "vote_timeout_seconds" ∷ "vote_percent" ∷ "youtube_search_results" ∷ "auth_rate"
    ∷ "session_days" ∷ "argon_memory" ∷ "argon_iterations" ∷ []

-- `validateSetting`; a key of no case passes.
unfoldable pub validate_setting : String → String → Bool
validate_setting key value =
    if same key "access_mode"
    then is_one_of value access_modes
    else (if same key "player_backend"
        then is_one_of value ("mpv" ∷ "fake" ∷ [])
        else (if same key "auto_queue_mode"
            then is_one_of value ("active_users" ∷ "specific_seeds" ∷ "related_last" ∷ [])
            else (if is_one_of key ("auto_queue_artists" ∷ "auto_queue_genres" ∷ [])
                then leb (byte_length value) 1000
                else (if is_one_of key switch_settings
                    then is_one_of value ("true" ∷ "false" ∷ [])
                    else (if same key "auto_queue_depth"
                        then number_within 1 20 (atoi value)
                        else (if same key "auto_queue_active_seconds"
                            then number_within 30 3600 (atoi value)
                            else (if is_one_of key number_settings
                                then number_within 0 100000 (atoi value)
                                else true)))))))

-- What completing the installation answers to an error.
abbrev pub setup_refused : AuthError → Reply
setup_refused invalid_username = refuses 422 "invalid_account"
setup_refused invalid_password = refuses 422 "invalid_account"
setup_refused username_taken = refuses 422 "invalid_account"
setup_refused already_complete = refuses 409 "already_installed"
setup_refused e = internal_error

-- A setting that cannot be saved is only logged.
abbrev pub saved_or_not : Outcome → SettingsStore → SettingsStore
saved_or_not (done s') s = s'
saved_or_not (fails e) s = s

abbrev pub with_setup_settings : String → String → SetupRequest → SettingsStore → SettingsStore
with_setup_settings nonce mode q s =
    let moded = saved_or_not (set nonce "access_mode" mode s) s in
    if same q.lastfm_api_key ""
    then moded
    else saved_or_not (set nonce "lastfm_api_key" q.lastfm_api_key moded) moded

abbrev pub installed_by :
    String → SetupRequest → WebRequest → Answer (Accounts × IssuedSession) → House → House × Reply
installed_by mode q r (denies e) h = (h, setup_refused e)
installed_by mode q r (gives (a, issued)) h = (
  record h {
    accounts = a;
    settings = with_setup_settings r.nonce mode q h.settings;
    access_mode = mode;
    installed = true;
  },
  issues 201 issued,
)

abbrev pub chosen_mode : SetupRequest → String
chosen_mode q = if same q.access_mode "" then "open" else q.access_mode

abbrev pub complete_setup_checked : SetupRequest → WebRequest → House → House × Reply
complete_setup_checked q r h =
    if not (same q.credentials.password q.credentials.password_confirmation)
    then (h, refuses 422 "password_confirmation_mismatch")
    else (if not (is_one_of (chosen_mode q) access_modes)
        then (h, refuses 422 "invalid_access_mode")
        else installed_by (chosen_mode q) q r
            (create_initial_admin_and_session h.crypto r.draw q.credentials.username
              q.credentials.password h.accounts)
            h)

unfoldable pub complete_setup : Option SetupRequest → WebRequest → House → House × Reply
complete_setup body r h = if h.installed then (h, refuses 409 "already_installed") else elim body [
  | none ↦ (h, refuses 400 "invalid_request")
  | some q ↦ complete_setup_checked q r h
]

-- `requireAdmin`, and the handler behind it.
abbrev pub as_admin : Option Session → (Session → House → House × Reply) → House → House × Reply
as_admin none handler h = (h, refuses 401 "authentication_required")
as_admin (some t) handler h =
    let handled = handler t h in
    if t.user.administrator then handled else (h, refuses 403 "administrator_required")

unfoldable pub list_admin_settings : Option Session → House → House × Reply
list_admin_settings identity = as_admin identity (λ t h. (h, gives_settings (listed h.settings)))

-- A setting that the service configuration manages is an internal error here.
abbrev pub setting_updated : Outcome → House → House × Reply
setting_updated (done s) h = (record h { settings = s }, says 200 "saved")
setting_updated (fails unknown_setting) h = (h, refuses 422 "invalid_setting")
setting_updated (fails no_encryption) h = (h, refuses 422 "invalid_setting")
setting_updated (fails e) h = (h, internal_error)

abbrev pub setting_checked : String → String → Option String → House → House × Reply
setting_checked nonce key none h = (h, refuses 400 "invalid_request")
setting_checked nonce key (some value) h =
    if validate_setting key value
    then setting_updated (set nonce key value h.settings) h
    else (h, refuses 422 "invalid_setting")

unfoldable pub update_admin_setting :
    String → Option String → String → Option Session → House → House × Reply
update_admin_setting key body nonce identity =
    as_admin identity (λ t. setting_checked nonce key body)

abbrev pub setting_deleted : Outcome → House → House × Reply
setting_deleted (done s) h = (record h { settings = s }, says 204 "")
setting_deleted (fails e) h = (h, refuses 422 "invalid_setting")

unfoldable pub delete_admin_setting : String → String → Option Session → House → House × Reply
delete_admin_setting key nonce identity =
    as_admin identity (λ t h. setting_deleted (set nonce key "" h.settings) h)

unfoldable pub list_admin_users : Option Session → House → House × Reply
list_admin_users identity = as_admin identity (λ t h. (h, gives_users (list_users h.accounts)))

abbrev pub role_updated : Answer Accounts → House → House × Reply
role_updated (gives a) h = (record h { accounts = a }, says 200 "updated")
role_updated (denies user_not_found) h = (h, refuses 404 "user_not_found")
role_updated (denies final_administrator) h = (h, refuses 409 "final_administrator")
role_updated (denies e) h = (h, internal_error)

abbrev pub role_decided : String → Option Bool → House → House × Reply
role_decided id none h = (h, refuses 400 "invalid_request")
role_decided id (some administrator) h = role_updated (set_admin id administrator h.accounts) h

unfoldable pub update_admin_role : String → Option Bool → Option Session → House → House × Reply
update_admin_role id body identity = as_admin identity (λ t. role_decided id body)
