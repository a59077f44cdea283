-- ===== src/Web/Handled.antt =====
-- The effects of the handlers of internal/app/auth.go, internal/app/admin.go and internal/app/autoqueue.go.
use raspi_media_player.Base.{
  ℕ, String, Bool, true, false, not, ◌≡◌, refl, sym, ap, Option, none, some, List, [], ◌∷◌,
  if_split, same, if◌then◌else◌,
}
use raspi_media_player.Accounts.Rows.{
  User, Session, IssuedSession, Accounts, user_not_found, session_not_found, Answer, gives, denies,
  Draw,
}
use raspi_media_player.Accounts.Names.{normalize_username}
use raspi_media_player.Accounts.Store.{
  find_user, create_session, create_user_and_session, create_initial_admin_and_session, set_admin,
  list_users,
}
use raspi_media_player.Accounts.Sessions.{revoke}
use raspi_media_player.Accounts.Calls.{
  AuthCall, sets_up, signs_up as registers, starts, sets_role, revokes, call, kept_accounts,
  accounts_of,
}
use raspi_media_player.Config.Store.{
  Outcome, done, fails, unknown_setting, read_only_setting, no_encryption, unreadable_secret, set,
  listed, SettingsStore,
}
use raspi_media_player.Api.Limiter.{RateLimiter, allow}
use raspi_media_player.Api.Requests.{client_ip}
use raspi_media_player.Web.House.{
  Route, shows_setup, lists_settings, lists_users, shows_session, logs_out, lists_sessions,
  completes_setup, updates_setting, deletes_setting, updates_role, asks_username, revokes_session,
  logs_in, signs_up, shows_auto_queue, sets_auto_queue, queues, elsewhere, AutoQueueRequest,
  WebRequest, House, Reply, Credentials, SetupRequest, refuses, gives_settings, gives_users,
}
use raspi_media_player.Web.Signing.{
  username_availability, login, signup, logout, sessions_listed, revoke_session, limited,
  login_allowed, signup_allowed, session_started, password_checked, user_found, name_checked,
  account_created, logged_out, session_revoked,
}
use raspi_media_player.Web.Admin.{
  complete_setup, complete_setup_checked, installed_by, chosen_mode, is_one_of, access_modes,
  list_admin_settings, update_admin_setting, delete_admin_setting, list_admin_users,
  update_admin_role, as_admin, validate_setting, setting_updated, setting_checked, setting_deleted,
  role_updated, role_decided,
}
use raspi_media_player.Web.AutoQueue.{
  auto_queue_written, auto_queue_checked, set_auto_queue, set_each, visited, updates_of, all_valid,
}
use raspi_media_player.Web.Tuning.{
  without_auto_queue, set_each-without, updates_of-keys, visited-keys, AreKeys,
}
use raspi_media_player.Web.Routes.{dispatch}
use raspi_media_player.Web.Effects.{
  IsVerified, Effect, rests, signs_in, registered, installs, revoked_own, assigned_role, configured,
  tuned, relimited,
}

module _ (route : Route) (identity : Option Session) (h : House) where
  abbrev After : House × Reply → Type 0
  After o = Effect route identity h o.0

  stored_by :
      (x : AuthCall) {a : Accounts}
      → call h.crypto x h.accounts ≡ gives a
      → a ≡ kept_accounts h.accounts (call h.crypto x h.accounts)
  stored_by x e = sym (ap (kept_accounts h.accounts) e)

  started_effect :
      (status : ℕ) (d : Draw) (u : User) (c : Credentials)
      → route ≡ logs_in (some c)
      → IsVerified c u h
      → After (session_started status (create_session h.crypto d u h.accounts) h)
  unfolding call
  started_effect status d u c e v = go (create_session h.crypto d u h.accounts) refl
    where
      go :
          (o : Answer (Accounts × IssuedSession))
          → create_session h.crypto d u h.accounts ≡ o
          → After (session_started status o h)
      go (denies x) q = rests refl refl refl
      go (gives (a, i)) q = signs_in refl d u c e v (stored_by (starts d u) (ap accounts_of q)) refl

  login_effect :
      (body : Option Credentials) (r : WebRequest)
      → route ≡ logs_in body
      → After (login_allowed body r h)
  unfolding login_allowed
  login_effect none r e = rests refl refl refl
  login_effect (some c) r e = by_name (normalize_username c.username) refl
    where
      by_password :
          (b : Option Bool) (u : User) (name : String) (hash : List ℕ)
          → normalize_username c.username ≡ some name
          → find_user name h.accounts ≡ gives (u, hash)
          → h.crypto.verify_password c.password hash ≡ b
          → After (password_checked b u r h)
      by_password none u name hash n f v = rests refl refl refl
      by_password (some false) u name hash n f v = rests refl refl refl
      by_password (some true) u name hash n f v =
          started_effect 200 r.draw u c e
            (record { name = name; hash = hash; normal = n; found = f; verified = v })

      by_user :
          (name : String) (o : Answer (User × List ℕ))
          → normalize_username c.username ≡ some name
          → find_user name h.accounts ≡ o
          → After (user_found name o c r h)
      by_user name (gives (u, hash)) n f =
          by_password (h.crypto.verify_password c.password hash) u name hash n f refl
      by_user name (denies user_not_found) n f = rests refl refl refl
      by_user name _ n f = rests refl refl refl

      by_name :
          (o : Option String) → normalize_username c.username ≡ o → After (name_checked o c r h)
      by_name none n = rests refl refl refl
      by_name (some name) n = by_user name (find_user name h.accounts) n refl

  signup_effect :
      (body : Option Credentials) (r : WebRequest)
      → route ≡ signs_up body
      → After (signup_allowed body r h)
  unfolding signup_allowed call
  signup_effect none r e = rests refl refl refl
  signup_effect (some c) r e =
      if_split After (same c.password c.password_confirmation) _ _
        (λ confirmed.
          go (create_user_and_session h.crypto r.draw c.username c.password h.accounts) confirmed
            refl)
        (λ other. rests refl refl refl)
    where
      go :
          (o : Answer (Accounts × IssuedSession))
          → same c.password c.password_confirmation ≡ true
          → create_user_and_session h.crypto r.draw c.username c.password h.accounts ≡ o
          → After (account_created o h)
      go (denies x) confirmed q = rests refl refl refl
      go (gives (a, i)) confirmed q =
          registered refl r.draw c e confirmed
            (stored_by (registers r.draw c.username c.password) (ap accounts_of q)) refl

  setup_effect :
      (body : Option SetupRequest) (r : WebRequest)
      → route ≡ completes_setup body
      → After (complete_setup body r h)
  unfolding complete_setup call
  setup_effect body r at =
      if_split After h.installed _ _ (λ e. rests refl refl refl) (λ e. fresh e body at)
    where
      stored :
          (q : SetupRequest) (o : Answer (Accounts × IssuedSession))
          → route ≡ completes_setup (some q)
          → h.installed ≡ false
          → create_initial_admin_and_session h.crypto r.draw q.credentials.username
              q.credentials.password h.accounts
            ≡ o
          → After (installed_by (chosen_mode q) q r o h)
      stored q (denies e) at open_ made = rests refl refl refl
      stored q (gives (a, i)) at open_ made = installs refl r.draw q at open_ (
          stored_by (sets_up r.draw q.credentials.username q.credentials.password)
            (ap accounts_of made))

      fresh :
          h.installed ≡ false
          → (body : Option SetupRequest) → route ≡ completes_setup body
          → After (elim body [
            | none ↦ (h, refuses 400 "invalid_request")
            | some q ↦ complete_setup_checked q r h
          ])
      fresh open_ none at = rests refl refl refl
      fresh open_ (some q) at =
          if_split After (not (same q.credentials.password q.credentials.password_confirmation)) _ _
            (λ e. rests refl refl refl)
            (λ e.
              if_split After (not (is_one_of (chosen_mode q) access_modes)) _ _
                (λ e. rests refl refl refl)
                (λ e.
                  stored q
                    (create_initial_admin_and_session h.crypto r.draw q.credentials.username
                      q.credentials.password h.accounts)
                    at open_ refl))

  own_effect :
      (t : Session) (id : String)
      → identity ≡ some t
      → (a : Accounts) (q : revoke t.user.id id h.accounts ≡ gives a)
      → Effect route identity h (record h { accounts = a })
  unfolding call
  own_effect t id e a q = revoked_own refl t id e (stored_by (revokes t.user.id id) q) refl

  logout_effect : After (logout identity h)
  unfolding logout
  logout_effect = of_owner identity refl
    where
      done_by :
          (t : Session) (o : Answer Accounts)
          → identity ≡ some t
          → revoke t.user.id t.id h.accounts ≡ o
          → After (logged_out o h)
      done_by t (gives a) e q = own_effect t t.id e a q
      done_by t (denies session_not_found) e q = rests refl refl refl
      done_by t _ e q = rests refl refl refl

      of_owner : (o : Option Session) → identity ≡ o → After (logout o h)
      of_owner none e = rests refl refl refl
      of_owner (some t) e = done_by t (revoke t.user.id t.id h.accounts) e refl

  revoke_effect : (id : String) → After (revoke_session id identity h)
  unfolding revoke_session
  revoke_effect id = of_owner identity refl
    where
      done_by :
          (t : Session) (o : Answer Accounts)
          → identity ≡ some t
          → revoke t.user.id id h.accounts ≡ o
          → After (session_revoked id t o h)
      done_by t (gives a) e q = own_effect t id e a q
      done_by t (denies session_not_found) e q = rests refl refl refl
      done_by t _ e q = rests refl refl refl

      of_owner : (o : Option Session) → identity ≡ o → After (revoke_session id o h)
      of_owner none e = rests refl refl refl
      of_owner (some t) e = done_by t (revoke t.user.id id h.accounts) e refl

  -- A handler behind `requireAdmin`.
  admin_effect :
      (handler : Session → House → House × Reply)
      → ((t : Session) → identity ≡ some t → t.user.administrator ≡ true → After (handler t h))
      → After (as_admin identity handler h)
  admin_effect handler works = go identity refl
    where
      go : (o : Option Session) → identity ≡ o → After (as_admin o handler h)
      go none e = rests refl refl refl
      go (some t) e =
          if_split After t.user.administrator _ _ (λ role. works t e role)
            (λ role. rests refl refl refl)

  role_effect : (id : String) (body : Option Bool) → After (update_admin_role id body identity h)
  unfolding update_admin_role call
  role_effect id body = admin_effect (λ t. role_decided id body) (λ t e role. go t e role body)
    where
      updated :
          (t : Session) (b : Bool) (o : Answer Accounts)
          → identity ≡ some t
          → t.user.administrator ≡ true
          → set_admin id b h.accounts ≡ o
          → After (role_updated o h)
      updated t b (gives a) e role q =
          assigned_role refl t id b e role (stored_by (sets_role id b) q) refl
      updated t b (denies user_not_found) e role q = rests refl refl refl
      updated t b _ e role q = rests refl refl refl

      go :
          (t : Session)
          → identity ≡ some t
          → t.user.administrator ≡ true
          → (body : Option Bool) → After (role_decided id body h)
      go t e role none = rests refl refl refl
      go t e role (some b) = updated t b (set_admin id b h.accounts) e role refl

  update_effect :
      (key : String) (body : Option String) (nonce : String)
      → After (update_admin_setting key body nonce identity h)
  unfolding update_admin_setting
  update_effect key body nonce =
      admin_effect (λ t. setting_checked nonce key body) (λ t e role. go t e role body)
    where
      saved :
          (t : Session)
          → identity ≡ some t
          → t.user.administrator ≡ true
          → (o : Outcome) → After (setting_updated o h)
      saved t e role (done s) = configured refl t e role refl
      saved t e role (fails unknown_setting) = rests refl refl refl
      saved t e role (fails no_encryption) = rests refl refl refl
      saved t e role (fails read_only_setting) = rests refl refl refl
      saved t e role (fails unreadable_secret) = rests refl refl refl

      go :
          (t : Session)
          → identity ≡ some t
          → t.user.administrator ≡ true
          → (body : Option String) → After (setting_checked nonce key body h)
      go t e role none = rests refl refl refl
      go t e role (some v) =
          if_split After (validate_setting key v) _ _
            (λ ok. saved t e role (set nonce key v h.settings)) (λ bad. rests refl refl refl)

  delete_effect : (key nonce : String) → After (delete_admin_setting key nonce identity h)
  unfolding delete_admin_setting
  delete_effect key nonce =
      admin_effect (λ t h. setting_deleted (set nonce key "" h.settings) h)
        (λ t e role. saved t e role (set nonce key "" h.settings))
    where
      saved :
          (t : Session)
          → identity ≡ some t
          → t.user.administrator ≡ true
          → (o : Outcome) → After (setting_deleted o h)
      saved t e role (done s) = configured refl t e role refl
      saved t e role (fails e') = rests refl refl refl

  tune_effect :
      (body : Option AutoQueueRequest) (r : WebRequest)
      → route ≡ sets_auto_queue body
      → After (set_auto_queue body r h)
  unfolding set_auto_queue
  tune_effect none r e = rests refl refl refl
  tune_effect (some q) r e = checked (updates_of q) (updates_of-keys q)
    where
      wrote :
          (o : SettingsStore × Bool)
          → without_auto_queue o.0 ≡ without_auto_queue h.settings
          → After (auto_queue_written o h)
      wrote (s, true) w = tuned refl (some q) e refl w
      wrote (s, false) w = tuned refl (some q) e refl w

      checked : (us : List (String × String)) → AreKeys us → After (auto_queue_checked us r h)
      checked [] k = rests refl refl refl
      checked (u ∷ us) k =
          if_split After (all_valid (u ∷ us)) _ _
            (λ valid. wrote (set_each r.nonce (visited r.visit (u ∷ us)) h.settings) (
              set_each-without r.nonce (visited r.visit (u ∷ us)) h.settings
                (visited-keys r.visit (u ∷ us) k)))
            (λ invalid. rests refl refl refl)

  list_settings_effect : After (list_admin_settings identity h)
  unfolding list_admin_settings
  list_settings_effect =
      admin_effect (λ t h. (h, gives_settings (listed h.settings)))
        (λ t e role. rests refl refl refl)

  list_users_effect : After (list_admin_users identity h)
  unfolding list_admin_users
  list_users_effect =
      admin_effect (λ t h. (h, gives_users (list_users h.accounts)))
        (λ t e role. rests refl refl refl)

  list_sessions_effect : (now : ℕ) → After (sessions_listed identity now h)
  unfolding sessions_listed
  list_sessions_effect now = go identity
    where
      go : (o : Option Session) → After (sessions_listed o now h)
      go none = rests refl refl refl
      go (some t) = rests refl refl refl

limited_effect :
    (route : Route) (identity : Option Session) (h : House) (r : WebRequest)
    (handler : WebRequest → House → House × Reply)
    → ((h' : House) → Effect route identity h' (handler r h').0)
    → Effect route identity h (limited handler r h).0
limited_effect route identity h r handler works =
    go (allow (client_ip r.asked) r.asked.now h.auth_limiter)
  where
    go :
        (o : RateLimiter × Bool)
        → Effect route identity h
            (if o.1
              then handler r (record h { auth_limiter = o.0 })
              else (record h { auth_limiter = o.0 }, refuses 429 "rate_limited")).0
    go (limiter, true) =
        relimited route identity limiter h (handler r (record h { auth_limiter = limiter })).0
          (works (record h { auth_limiter = limiter }))
    go (limiter, false) = rests refl refl refl

-- Every request that reaches its handler has one of these effects.
pub dispatch_effect :
    (r : WebRequest) (identity : Option Session) (h : House)
    → Effect r.route identity h (dispatch r.route r identity h).0
unfolding dispatch login signup username_availability
dispatch_effect r identity h = go r.route
  where
    go : (route : Route) → Effect route identity h (dispatch route r identity h).0
    go shows_setup = rests refl refl refl
    go lists_settings = list_settings_effect lists_settings identity h
    go lists_users = list_users_effect lists_users identity h
    go shows_session = rests refl refl refl
    go logs_out = logout_effect logs_out identity h
    go lists_sessions = list_sessions_effect lists_sessions identity h r.draw.now
    go (completes_setup body) = setup_effect (completes_setup body) identity h body r refl
    go (updates_setting key body) =
        update_effect (updates_setting key body) identity h key body r.nonce
    go (deletes_setting key) = delete_effect (deletes_setting key) identity h key r.nonce
    go (updates_role id body) = role_effect (updates_role id body) identity h id body
    go (asks_username name) = rests refl refl refl
    go (revokes_session id) = revoke_effect (revokes_session id) identity h id
    go (logs_in body) =
        limited_effect (logs_in body) identity h r (login_allowed body)
          (λ h'. login_effect (logs_in body) identity h' body r refl)
    go (signs_up body) =
        limited_effect (signs_up body) identity h r (signup_allowed body)
          (λ h'. signup_effect (signs_up body) identity h' body r refl)
    go shows_auto_queue = rests refl refl refl
    go (sets_auto_queue body) = tune_effect (sets_auto_queue body) identity h body r refl
    go (queues e) = rests refl refl refl
    go (elsewhere m p) = rests refl refl refl
