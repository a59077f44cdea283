-- ===== src/Web/Authority.antt =====
-- The rights by which requests to internal/app change the accounts.
use raspi_media_player.Base.{
  String, Bool, true, false, ◌≡◌, ◌⊎◌, ap, subst, sym, Option, some, inl, inr, same,
}
use raspi_media_player.Accounts.Rows.{User, Session, Draw}
use raspi_media_player.Accounts.Calls.{
  AuthCall, sets_up, signs_up as registers, starts, sets_role, revokes,
}
use raspi_media_player.Web.House.{
  Route, Credentials, SetupRequest, logs_in, signs_up, completes_setup, WebRequest, House,
}
use raspi_media_player.Web.Routes.{authenticate, dispatch, guarded, respond}
use raspi_media_player.Web.Effects.{
  Wrote, IsVerified, Effect, rests, signs_in, registered, installs, revoked_own, assigned_role,
  configured, tuned,
}
use raspi_media_player.Web.Handled.{dispatch_effect}
use raspi_media_player.Web.Rights.{Passage, stopped, passed, guarded-Passage}

-- The calls of the store of accounts that a request has a right to.
pub data IsEarned (route : Route) (identity : Option Session) (h : House) : AuthCall → Type 0 where
  by_password :
      (d : Draw) (u : User) (c : Credentials)
      → route ≡ logs_in (some c)
      → IsVerified c u h
      → IsEarned route identity h (starts d u)
  by_confirmation :
      (d : Draw) (c : Credentials)
      → route ≡ signs_up (some c)
      → same c.password c.password_confirmation ≡ true
      → IsEarned route identity h (registers d c.username c.password)
  by_first :
      (d : Draw) (q : SetupRequest)
      → route ≡ completes_setup (some q)
      → h.installed ≡ false
      → IsEarned route identity h (sets_up d q.credentials.username q.credentials.password)
  by_owner :
      (t : Session) (id : String)
      → identity ≡ some t
      → IsEarned route identity h (revokes t.user.id id)
  by_administrator :
      (t : Session) (id : String) (b : Bool)
      → identity ≡ some t
      → t.user.administrator ≡ true
      → IsEarned route identity h (sets_role id b)

-- The accounts are those of before, or those that one earned call makes of them.
abbrev pub IsEarnedChange : Route → Option Session → House → House → Type 0
IsEarnedChange route identity h h' =
    (h'.accounts ≡ h.accounts) ⊎ ((x : AuthCall) × IsEarned route identity h x × Wrote x h h')

Effect-IsEarnedChange :
    (route : Route) (identity : Option Session) (h h' : House)
    → Effect route identity h h'
    → IsEarnedChange route identity h h'
Effect-IsEarnedChange route identity h h' (rests k a s) = inl a
Effect-IsEarnedChange route identity h h' (signs_in k d u c e v a s) =
    inr (starts d u, by_password d u c e v, a)
Effect-IsEarnedChange route identity h h' (registered k d c e m a s) =
    inr (registers d c.username c.password, by_confirmation d c e m, a)
Effect-IsEarnedChange route identity h h' (installs k d q e o a) =
    inr (sets_up d q.credentials.username q.credentials.password, by_first d q e o, a)
Effect-IsEarnedChange route identity h h' (revoked_own k t id e a s) =
    inr (revokes t.user.id id, by_owner t id e, a)
Effect-IsEarnedChange route identity h h' (assigned_role k t id b e y a s) =
    inr (sets_role id b, by_administrator t id b e y, a)
Effect-IsEarnedChange route identity h h' (configured k t e y a) = inl a
Effect-IsEarnedChange route identity h h' (tuned k body e a w) = inl a

-- What a request makes of the accounts, once its session is looked up, is nothing or one call of the store:
-- a session for the user whose password it gave, an account with a confirmed password, the first
-- administrator before the installation, an end to a session of its own user, or a role where its user is an
-- administrator.
pub respond-IsEarnedChange :
    (r : WebRequest) (h : House)
    → IsEarnedChange r.route (authenticate r h).1 (authenticate r h).0 (respond r h).0
unfolding respond
respond-IsEarnedChange r h =
    let a = authenticate r h in go a.1 a.0 (guarded r a.1 a.0).0 (guarded-Passage r a.1 a.0)
  where
    go :
        (identity : Option Session) (h h' : House)
        → Passage r identity h h'
        → IsEarnedChange r.route identity h h'
    go identity h h' (stopped e) = inl (ap (λ (x : House). x.accounts) e)
    go identity h h' (passed g n e) = subst (IsEarnedChange r.route identity h) (sym e) (
        Effect-IsEarnedChange r.route identity h (dispatch r.route r identity h).0
          (dispatch_effect r identity h))
