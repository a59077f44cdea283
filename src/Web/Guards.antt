-- ===== src/Web/Guards.antt =====
-- What a request to internal/app may change: the checks of the chain and of the handlers together.
use raspi_media_player.Base.{
  Bool, true, false, not, ◌≡◌, ◌⊎◌, refl, sym, ap, subst, Option, none, some, inl, inr, Bool-cases,
  if_split, same, ◌&&◌,
}
use raspi_media_player.Accounts.Rows.{Session}
use raspi_media_player.Accounts.Sessions.{verify_csrf}
use raspi_media_player.Web.House.{
  Route, shows_setup, lists_settings, lists_users, shows_session, logs_out, lists_sessions,
  completes_setup, updates_setting, deletes_setting, updates_role, asks_username, revokes_session,
  logs_in, signs_up, shows_auto_queue, sets_auto_queue, AutoQueueRequest, queues, elsewhere,
  WebRequest, House, Reply, gives_settings, gives_users,
}
use raspi_media_player.Accounts.Store.{list_users}
use raspi_media_player.Config.Store.{listed}
use raspi_media_player.Web.Signing.{sessions_listed, username_availability}
use raspi_media_player.Web.Admin.{as_admin, list_admin_settings, list_admin_users}
use raspi_media_player.Web.Routes.{
  authenticate, dispatch, path, method, is_exempt, is_mutation, is_forged, needs_session,
  is_protected, guarded, respond,
}
use raspi_media_player.Web.Effects.{
  Effect, rests, signs_in, registered, installs, revoked_own, assigned_role, configured, tuned,
}
use raspi_media_player.Web.Handled.{dispatch_effect}
use raspi_media_player.Web.Tuning.{without_auto_queue}
use raspi_media_player.Web.Rights.{IsLeft, Passage, stopped, passed, guarded-Passage}

-- The session that a request has, with its own token.
abbrev pub IsGenuine : WebRequest → House → Option Session → Type 0
IsGenuine r h identity =
    (t : Session) × (identity ≡ some t)
    × (verify_csrf h.crypto t.id r.csrf_header h.accounts ≡ true)

genuine :
    (r : WebRequest) (t : Session) (h : House)
    → is_forged r (some t) h ≡ false
    → (is_mutation (method r.route) ≡ false)
      ⊎ ((is_exempt (path r.route) ≡ true)
          ⊎ (verify_csrf h.crypto t.id r.csrf_header h.accounts ≡ true))
genuine r t h e =
    three (is_mutation (method r.route)) (is_exempt (path r.route))
      (verify_csrf h.crypto t.id r.csrf_header h.accounts) e
  where
    three : (m x v : Bool) → (m && not x && not v) ≡ false → (m ≡ false) ⊎ ((x ≡ true) ⊎ (v ≡ true))
    three false x v e = inl refl
    three true true v e = inr (inl refl)
    three true false true e = inr (inr refl)
    three true false false e = cc e

behind_admin :
    (identity : Option Session) (reply : House → Reply) (h : House)
    → IsLeft h (as_admin identity (λ t h. (h, reply h)) h).0
behind_admin none reply h = (refl, refl)
behind_admin (some t) reply h =
    if_split (λ (o : House × Reply). IsLeft h o.0) t.user.administrator _ _ (λ e. (refl, refl))
      (λ e. (refl, refl))

-- A request that is no mutation leaves accounts and settings.
dispatch-reading :
    (r : WebRequest) (identity : Option Session) (h : House)
    → is_mutation (method r.route) ≡ false
    → IsLeft h (dispatch r.route r identity h).0
unfolding dispatch list_admin_settings list_admin_users sessions_listed username_availability
dispatch-reading r identity h e = go r.route e
  where
    listing : (o : Option Session) → IsLeft h (sessions_listed o r.draw.now h).0
    listing none = (refl, refl)
    listing (some t) = (refl, refl)

    go :
        (route : Route)
        → is_mutation (method route) ≡ false
        → IsLeft h (dispatch route r identity h).0
    go shows_setup e = (refl, refl)
    go lists_settings e = behind_admin identity (λ h. gives_settings (listed h.settings)) h
    go lists_users e = behind_admin identity (λ h. gives_users (list_users h.accounts)) h
    go shows_session e = (refl, refl)
    go logs_out e = cc e
    go lists_sessions e = listing identity
    go (completes_setup body) e = cc e
    go (updates_setting key body) e = cc e
    go (deletes_setting key) e = cc e
    go (updates_role id body) e = cc e
    go (asks_username name) e = (refl, refl)
    go (revokes_session id) e = cc e
    go (logs_in body) e = cc e
    go (signs_up body) e = cc e
    go shows_auto_queue e = (refl, refl)
    go (sets_auto_queue body) e = cc e
    go (queues q) e = (refl, refl)
    go (elsewhere m p) e = (refl, refl)

-- The right by which a request changes accounts or settings.
abbrev pub HasRight : WebRequest → Option Session → House → Type 0
HasRight r identity h =
    (is_exempt (path r.route) ≡ true) ⊎ ((h.installed ≡ false) ⊎ IsGenuine r h identity)

by_owner :
    (r : WebRequest) (identity : Option Session) (h : House) (t : Session)
    → identity ≡ some t
    → is_forged r identity h ≡ false
    → is_mutation (method r.route) ≡ true
    → HasRight r identity h
by_owner r identity h t e g m = go (genuine r t h (subst (λ o. is_forged r o h ≡ false) e g))
  where
    go :
        (is_mutation (method r.route) ≡ false)
          ⊎ ((is_exempt (path r.route) ≡ true)
              ⊎ (verify_csrf h.crypto t.id r.csrf_header h.accounts ≡ true))
        → HasRight r identity h
    go (inl reading) = cc (reading, m)
    go (inr (inl exempt)) = inl exempt
    go (inr (inr own)) = inr (inr (t, e, own))

-- A request of nobody that writes the four settings of the automatic queue, where nobody has to be signed in.
pub record IsTuning (route : Route) (identity : Option Session) (h h' : House) : Type 0 where
  pub body : Option AutoQueueRequest
  pub asked : route ≡ sets_auto_queue body
  pub nobody : identity ≡ none
  pub open_access : same h.access_mode "accounts_required" ≡ false
  pub accounts : h'.accounts ≡ h.accounts
  pub others : without_auto_queue h'.settings ≡ without_auto_queue h.settings

-- What a request may do.
abbrev pub MayChange : WebRequest → Option Session → House → House → Type 0
MayChange r identity h h' = IsLeft h h' ⊎ (HasRight r identity h ⊎ IsTuning r.route identity h h')

tuned_by :
    (r : WebRequest) (identity : Option Session) (h h' : House)
    → is_forged r identity h ≡ false
    → needs_session r identity h ≡ false
    → (body : Option AutoQueueRequest) → r.route ≡ sets_auto_queue body
    → h'.accounts ≡ h.accounts
    → without_auto_queue h'.settings ≡ without_auto_queue h.settings
    → MayChange r identity h h'
tuned_by r none h h' g n body e a w = inr (
    inr (record {
      body = body;
      asked = e;
      nobody = refl;
      open_access = open_mode (same h.access_mode "accounts_required") (
          subst
            (λ x.
              (same h.access_mode "accounts_required"
                && is_protected (path x)
                && not (same (method x) "GET")
                && true)
              ≡ false)
            e n);
      accounts = a;
      others = w;
    }))
  where
    open_mode : (b : Bool) → (b && true && true && true) ≡ false → b ≡ false
    open_mode true h = cc h
    open_mode false h = refl
tuned_by r (some t) h h' g n body e a w =
    inr (
      inl
        (by_owner r (some t) h t refl g (subst (λ x. is_mutation (method x) ≡ true) (sym e) refl)))

by_effect :
    (r : WebRequest) (identity : Option Session) (h h' : House)
    → is_forged r identity h ≡ false
    → needs_session r identity h ≡ false
    → is_mutation (method r.route) ≡ true
    → Effect r.route identity h h'
    → MayChange r identity h h'
by_effect r identity h h' g n m (rests k a s) = inl (a, s)
by_effect r identity h h' g n m (signs_in k d u c e v a s) =
    inr (inl (inl (subst (λ x. is_exempt (path x) ≡ true) (sym e) refl)))
by_effect r identity h h' g n m (registered k d c e p a s) =
    inr (inl (inl (subst (λ x. is_exempt (path x) ≡ true) (sym e) refl)))
by_effect r identity h h' g n m (installs k d q e o a) = inr (inl (inr (inl o)))
by_effect r identity h h' g n m (revoked_own k t id e a s) =
    inr (inl (by_owner r identity h t e g m))
by_effect r identity h h' g n m (assigned_role k t id b e y a s) =
    inr (inl (by_owner r identity h t e g m))
by_effect r identity h h' g n m (configured k t e y a) = inr (inl (by_owner r identity h t e g m))
by_effect r identity h h' g n m (tuned k body e a w) = tuned_by r identity h h' g n body e a w

-- A request changes accounts or settings, beyond what authentication notes of its session, only by
-- signing in or up, before the installation, or with the token of its own session; or nobody is signed in,
-- the access mode does not require an account, and it writes the settings of the automatic queue and no
-- other.
pub respond-authorized :
    (r : WebRequest) (h : House)
    → MayChange r (authenticate r h).1 (authenticate r h).0 (respond r h).0
unfolding respond
respond-authorized r h =
    let a = authenticate r h in go a.1 a.0 (guarded r a.1 a.0).0 (guarded-Passage r a.1 a.0)
  where
    go :
        (identity : Option Session) (h h' : House)
        → Passage r identity h h'
        → MayChange r identity h h'
    go identity h h' (stopped e) =
        inl (ap (λ (x : House). x.accounts) e, ap (λ (x : House). x.settings) e)
    go identity h h' (passed g n e) =
        subst (MayChange r identity h) (sym e) (elim (Bool-cases (is_mutation (method r.route))) [
          | inl m ↦
              by_effect r identity h (dispatch r.route r identity h).0 g n m
                (dispatch_effect r identity h)
          | inr m ↦ inl (dispatch-reading r identity h m)
        ])
