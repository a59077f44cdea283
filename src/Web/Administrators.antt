-- ===== src/Web/Administrators.antt =====
-- Who gives roles and writes settings: the requests to internal/app/admin.go and internal/app/auth.go.
use raspi_media_player.Base.{
  String, Bool, true, false, ◌≡◌, ◌⊎◌, refl, sym, ap, ◌∙◌, subst, Option, none, some, List, [], ◌∷◌,
  ◌++◌, All, map, inl, inr,
}
use mathlib.Core.List.{append-nil}
use raspi_media_player.Accounts.Rows.{
  Account, User, Session, Accounts, Crypto, Answer, gives, denies, Draw,
}
use raspi_media_player.Accounts.Store.{
  new_account, create_session, create_user_and_session, shown_user,
}
use raspi_media_player.Accounts.Sessions.{resolve_session, seen}
use raspi_media_player.Accounts.Calls.{
  AuthCall, signs_up as registers, starts, revokes, call, kept_accounts,
}
use raspi_media_player.Accounts.Writes.{
  inserted, started, signed_up, resolve_session-rows, first_of, revoked_rows,
}
use raspi_media_player.Config.Store.{SettingsStore}
use raspi_media_player.Web.House.{Route, sets_auto_queue, AutoQueueRequest, WebRequest, House}
use raspi_media_player.Web.Routes.{authenticate, by_cookie, identified, dispatch, guarded, respond}
use raspi_media_player.Web.Effects.{
  Effect, rests, signs_in, registered, installs, revoked_own, assigned_role, configured, tuned,
}
use raspi_media_player.Web.Handled.{dispatch_effect}
use raspi_media_player.Web.Tuning.{without_auto_queue}
use raspi_media_player.Web.Rights.{Passage, stopped, passed, guarded-Passage}

-- The roles, in the order of the table.
abbrev pub roles : List Account → List (String × Bool)
roles users = map (λ (u : Account). (u.id, u.administrator)) users

-- The roles are those of before, with accounts behind them that are no administrators.
pub record KeepsRoles (a a' : Accounts) : Type 0 where
  pub newcomers : List (String × Bool)
  pub kept : roles a'.users ≡ roles a.users ++ newcomers
  pub plain : All (λ (p : String × Bool). p.1 ≡ false) newcomers

same_users : (a a' : Accounts) → a'.users ≡ a.users → KeepsRoles a a'
same_users a a' e = record {
  newcomers = [];
  kept = ap roles e ∙ sym (append-nil (roles a.users));
  plain = tt;
}

roles-append : (us vs : List Account) → roles (us ++ vs) ≡ roles us ++ roles vs
roles-append [] vs = refl
roles-append (u ∷ us) vs = ap (◌∷◌ (u.id, u.administrator)) (roles-append us vs)

registers-KeepsRoles :
    (c : Crypto) (d : Draw) (n w : String) (a a' : Accounts)
    → call c (registers d n w) a ≡ gives a'
    → KeepsRoles a a'
unfolding call
registers-KeepsRoles c d n w a a' h =
    let (i, done) = first_of (create_user_and_session c d n w a) a' h in
    let (display, shown, s) = signed_up c d n w a a' i done in
    let u = new_account c d false display w in
    record {
      newcomers = (d.user_id, false) ∷ [];
      kept =
          ap (λ (x : Accounts). roles x.users)
            (started c d (shown_user u) s.between a' s.issued s.session_stored).stored
          ∙ ap (λ (x : Accounts). roles x.users) (inserted u a s.between s.user_stored).stored
          ∙ roles-append a.users (u ∷ []);
      plain = (refl, tt);
    }

starts-KeepsRoles :
    (c : Crypto) (d : Draw) (u : User) (a a' : Accounts)
    → call c (starts d u) a ≡ gives a'
    → KeepsRoles a a'
unfolding call
starts-KeepsRoles c d u a a' h =
    let (i, done) = first_of (create_session c d u a) a' h in
    same_users a a' (ap (λ (x : Accounts). x.users) (started c d u a a' i done).stored)

revokes-KeepsRoles :
    (c : Crypto) (user_id id : String) (a a' : Accounts)
    → call c (revokes user_id id) a ≡ gives a'
    → KeepsRoles a a'
unfolding call
revokes-KeepsRoles c user_id id a a' h =
    same_users a a' (ap (λ (x : Accounts). x.users) (revoked_rows user_id id a a' h))

written :
    (c : Crypto) (x : AuthCall) (a a' : Accounts)
    → ((a' : Accounts) → call c x a ≡ gives a' → KeepsRoles a a')
    → a' ≡ kept_accounts a (call c x a)
    → KeepsRoles a a'
written c x a a' keeps e = subst (KeepsRoles a) (sym e) (go (call c x a) refl)
  where
    go : (r : Answer Accounts) → call c x a ≡ r → KeepsRoles a (kept_accounts a r)
    go (gives b) q = keeps b q
    go (denies f) q = same_users a a refl

authenticate-keeps :
    (r : WebRequest) (h : House)
    → ((authenticate r h).0.accounts.users ≡ h.accounts.users)
      × ((authenticate r h).0.settings ≡ h.settings)
      × ((authenticate r h).0.installed ≡ h.installed)
unfolding authenticate
authenticate-keeps r h = go r.session_cookie
  where
    rows :
        (token : String)
        → (resolve_session h.crypto token r.draw.now h.accounts).0.users ≡ h.accounts.users
    rows token = by_rows (resolve_session-rows h.crypto token r.draw.now h.accounts)
      where
        by_rows :
            ((resolve_session h.crypto token r.draw.now h.accounts).0 ≡ h.accounts)
              ⊎ ((id : String) × ((resolve_session h.crypto token r.draw.now h.accounts).0
                    ≡ record (h.accounts) {
                      sessions = map (seen id r.draw.now) h.accounts.sessions;
                    }))
            → (resolve_session h.crypto token r.draw.now h.accounts).0.users ≡ h.accounts.users
        by_rows (inl e) = ap (λ (x : Accounts). x.users) e
        by_rows (inr (id, e)) = ap (λ (x : Accounts). x.users) e

    resolved_to :
        (o : Accounts × Answer Session)
        → o.0.users ≡ h.accounts.users
        → ((identified o h).0.accounts.users ≡ h.accounts.users)
          × ((identified o h).0.settings ≡ h.settings)
          × ((identified o h).0.installed ≡ h.installed)
    resolved_to (a, gives t) e = (e, refl, refl)
    resolved_to (a, denies f) e = (e, refl, refl)

    go :
        (o : Option String)
        → ((by_cookie o r.draw.now h).0.accounts.users ≡ h.accounts.users)
          × ((by_cookie o r.draw.now h).0.settings ≡ h.settings)
          × ((by_cookie o r.draw.now h).0.installed ≡ h.installed)
    go none = (refl, refl, refl)
    go (some token) =
        resolved_to (resolve_session h.crypto token r.draw.now h.accounts) (rows token)

-- The settings after a request: those of before, or those of before but for the four of the automatic queue,
-- where the request is the one that writes these.
pub data KeepsSettings (route : Route) (s s' : SettingsStore) : Type 0 where
  untouched : s' ≡ s → KeepsSettings route s s'
  tunes :
      (body : Option AutoQueueRequest)
      → route ≡ sets_auto_queue body
      → without_auto_queue s' ≡ without_auto_queue s
      → KeepsSettings route s s'

abbrev pub IsAdministered : Route → Option Session → House → House → Type 0
IsAdministered route identity h h' =
    (KeepsRoles h.accounts h'.accounts × KeepsSettings route h.settings h'.settings)
    ⊎ ((h.installed ≡ false)
        ⊎ ((t : Session) × (identity ≡ some t) × (t.user.administrator ≡ true)))

effect-IsAdministered :
    (route : Route) (identity : Option Session) (h h' : House)
    → Effect route identity h h'
    → IsAdministered route identity h h'
effect-IsAdministered route identity h h' (rests k a s) =
    inl (same_users h.accounts h'.accounts (ap (λ (x : Accounts). x.users) a), untouched s)
effect-IsAdministered route identity h h' (signs_in k d u c e v a s) = inl (
  written h.crypto (starts d u) h.accounts h'.accounts (starts-KeepsRoles h.crypto d u h.accounts)
      a,
  untouched s,
)
effect-IsAdministered route identity h h' (registered k d c e m a s) = inl (
  written h.crypto (registers d c.username c.password) h.accounts h'.accounts
      (registers-KeepsRoles h.crypto d c.username c.password h.accounts) a,
  untouched s,
)
effect-IsAdministered route identity h h' (installs k d q e o a) = inr (inl o)
effect-IsAdministered route identity h h' (revoked_own k t id e a s) = inl (
  written h.crypto (revokes t.user.id id) h.accounts h'.accounts
      (revokes-KeepsRoles h.crypto t.user.id id h.accounts) a,
  untouched s,
)
effect-IsAdministered route identity h h' (assigned_role k t id b e y a s) = inr (inr (t, e, y))
effect-IsAdministered route identity h h' (configured k t e y a) = inr (inr (t, e, y))
effect-IsAdministered route identity h h' (tuned k body e a w) =
    inl (same_users h.accounts h'.accounts (ap (λ (x : Accounts). x.users) a), tunes body e w)

Passage-IsAdministered :
    (r : WebRequest) (identity : Option Session) (h h' : House)
    → Passage r identity h h'
    → IsAdministered r.route identity h h'
Passage-IsAdministered r identity h h' (stopped e) =
    subst (IsAdministered r.route identity h) (sym e)
      (inl (same_users h.accounts h.accounts refl, untouched refl))
Passage-IsAdministered r identity h h' (passed g n e) =
    subst (IsAdministered r.route identity h) (sym e) (
      effect-IsAdministered r.route identity h (dispatch r.route r identity h).0
        (dispatch_effect r identity h))

-- A request keeps every role, makes no account an administrator, and keeps the settings, but for the four of
-- the automatic queue where it is the one that writes them, unless its session is one of an administrator
-- or nothing is installed yet.
pub respond-IsAdministered :
    (r : WebRequest) (h : House) → IsAdministered r.route (authenticate r h).1 h (respond r h).0
unfolding respond
respond-IsAdministered r h =
    let a = authenticate r h in
    let (users, settings, installed) = authenticate-keeps r h in
    go a.1 a.0 (guarded r a.1 a.0).0 users settings installed
      (Passage-IsAdministered r a.1 a.0 (guarded r a.1 a.0).0 (guarded-Passage r a.1 a.0))
  where
    go :
        (identity : Option Session) (m h' : House)
        → m.accounts.users ≡ h.accounts.users
        → m.settings ≡ h.settings
        → m.installed ≡ h.installed
        → IsAdministered r.route identity m h'
        → IsAdministered r.route identity h h'
    go identity m h' u s i (inl (k, same)) = inl (
      record {
        newcomers = k.newcomers;
        kept = k.kept ∙ ap (λ us. roles us ++ k.newcomers) u;
        plain = k.plain;
      },
      subst (λ x. KeepsSettings r.route x h'.settings) s same,
    )
    go identity m h' u s i (inr (inl x)) = inr (inl (sym i ∙ x))
    go identity m h' u s i (inr (inr x)) = inr (inr x)
