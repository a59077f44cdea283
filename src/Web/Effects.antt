-- ===== src/Web/Effects.antt =====
-- What a request of internal/app does to the accounts and the settings, and with what right.
use raspi_media_player.Base.{ℕ, String, Bool, true, false, ◌≡◌, Option, some, List, same}
use raspi_media_player.Accounts.Rows.{User, Session, gives, Draw}
use raspi_media_player.Accounts.Names.{normalize_username}
use raspi_media_player.Accounts.Store.{find_user}
use raspi_media_player.Accounts.Calls.{
  AuthCall, sets_up, signs_up as registers, starts, sets_role, revokes, call, kept_accounts,
}
use raspi_media_player.Api.Limiter.{RateLimiter}
use raspi_media_player.Web.House.{
  Route, completes_setup, logs_in, signs_up, sets_auto_queue, AutoQueueRequest, House, Credentials,
  SetupRequest,
}
use raspi_media_player.Web.Tuning.{without_auto_queue}

-- The accounts after a call of the store, if it succeeds.
abbrev pub Wrote : AuthCall → House → House → Type 0
Wrote x h h' = h'.accounts ≡ kept_accounts h.accounts (call h.crypto x h.accounts)

-- The password of the credentials is that of the user.
pub record IsVerified (c : Credentials) (u : User) (h : House) : Type 0 where
  pub name : String
  pub hash : List ℕ
  pub normal : normalize_username c.username ≡ some name
  pub found : find_user name h.accounts ≡ gives (u, hash)
  pub verified : h.crypto.verify_password c.password hash ≡ some true

-- Every change of accounts or settings: by signing in or up, by the installation, by the owner of a
-- session, by an administrator, or of the automatic queue.
pub data Effect (route : Route) (identity : Option Session) (h h' : House) : Type 0 where
  rests :
      h'.crypto ≡ h.crypto
      → h'.accounts ≡ h.accounts
      → h'.settings ≡ h.settings
      → Effect route identity h h'
  signs_in :
      h'.crypto ≡ h.crypto
      → (d : Draw) (u : User) (c : Credentials) → route ≡ logs_in (some c)
      → IsVerified c u h
      → Wrote (starts d u) h h'
      → h'.settings ≡ h.settings
      → Effect route identity h h'
  registered :
      h'.crypto ≡ h.crypto
      → (d : Draw) (c : Credentials) → route ≡ signs_up (some c)
      → same c.password c.password_confirmation ≡ true
      → Wrote (registers d c.username c.password) h h'
      → h'.settings ≡ h.settings
      → Effect route identity h h'
  installs :
      h'.crypto ≡ h.crypto
      → (d : Draw) (q : SetupRequest) → route ≡ completes_setup (some q)
      → h.installed ≡ false
      → Wrote (sets_up d q.credentials.username q.credentials.password) h h'
      → Effect route identity h h'
  revoked_own :
      h'.crypto ≡ h.crypto
      → (t : Session) (id : String) → identity ≡ some t
      → Wrote (revokes t.user.id id) h h'
      → h'.settings ≡ h.settings
      → Effect route identity h h'
  assigned_role :
      h'.crypto ≡ h.crypto
      → (t : Session) (id : String) (b : Bool) → identity ≡ some t
      → t.user.administrator ≡ true
      → Wrote (sets_role id b) h h'
      → h'.settings ≡ h.settings
      → Effect route identity h h'
  configured :
      h'.crypto ≡ h.crypto
      → (t : Session) → identity ≡ some t
      → t.user.administrator ≡ true
      → h'.accounts ≡ h.accounts
      → Effect route identity h h'
  tuned :
      h'.crypto ≡ h.crypto
      → (body : Option AutoQueueRequest) → route ≡ sets_auto_queue body
      → h'.accounts ≡ h.accounts
      → without_auto_queue h'.settings ≡ without_auto_queue h.settings
      → Effect route identity h h'

-- The limiter of the authentication is no part of it.
pub relimited :
    (route : Route) (identity : Option Session) (limiter : RateLimiter) (h h' : House)
    → Effect route identity (record h { auth_limiter = limiter }) h'
    → Effect route identity h h'
relimited route identity limiter h h' (rests k a s) = rests k a s
relimited route identity limiter h h' (signs_in k d u c e v a s) =
    signs_in k d u c e
      (record {
        name = v.name;
        hash = v.hash;
        normal = v.normal;
        found = v.found;
        verified = v.verified;
      })
      a s
relimited route identity limiter h h' (registered k d c e m a s) = registered k d c e m a s
relimited route identity limiter h h' (installs k d q e o a) = installs k d q e o a
relimited route identity limiter h h' (revoked_own k t id x a s) = revoked_own k t id x a s
relimited route identity limiter h h' (assigned_role k t id b x y a s) =
    assigned_role k t id b x y a s
relimited route identity limiter h h' (configured k t x y a) = configured k t x y a
relimited route identity limiter h h' (tuned k body e a w) = tuned k body e a w
