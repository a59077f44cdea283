-- ===== src/Web/Departure.antt =====
-- `logout` of internal/app/auth.go: the cookie of the session is worth nothing from then on.
use raspi_media_player.Base.{
  ℕ, String, Bool, true, false, not, ◌≡◌, ◌≢◌, refl, sym, ap, ◌∙◌, subst, Option, none, some, List,
  map, first, first-map, inl, inr, Bool-cases, same, ltb, if◌then◌else◌, eq_iff, ◌&&◌, count,
  first-counted_by, first-passes, ◌==◌, arith,
}
use raspi_media_player.Accounts.Rows.{
  Account, SessionRow, Session, Accounts, Crypto, Answer, gives, denies, invalid_session,
}
use raspi_media_player.Accounts.Store.{has_account, has_token, shown_user}
use raspi_media_player.Accounts.Sessions.{
  resolve_session, resolved, joined, with_user, shown_session, seen, revoke, revoke_row,
  is_own_open, verify_csrf,
}
use raspi_media_player.Accounts.Writes.{seen-KeepsRow}
use raspi_media_player.Accounts.Tokens.{resolve_session-revoked}
use raspi_media_player.Web.House.{logs_out, WebRequest, House, Reply, clears_cookies}
use raspi_media_player.Web.Signing.{logout}
use raspi_media_player.Web.Routes.{
  authenticate, identified, dispatch, guarded, respond, needs_no_installation, is_forged,
  needs_session, is_mutation, is_exempt, is_protected, method, path,
}
use raspi_media_player.Web.Rights.{respond_all, respond_all-ByCalls}

-- The session that a token resolves to: its row is open, and belongs to the user that it shows.
record WasResolved (c : Crypto) (token : String) (now : ℕ) (t : Session) (a a' : Accounts)
    : Type 0 where
  row : SessionRow
  found : first (has_token (c.digest token)) a.sessions ≡ some row
  open_ : row.revoked ≡ false
  same_id : t.id ≡ row.id
  same_user : t.user.id ≡ row.user_id
  stored : a'.sessions ≡ map (seen row.id now) a.sessions

shown_open :
    (t : Session) (a a' : Accounts) (gone late : Bool) (b : Accounts) (u : Session)
    → ◌≡◌ {A = Accounts × Answer Session}
        (if gone
          then (a, denies invalid_session)
          else (if late then (a, denies invalid_session) else (b, gives u)))
        (a', gives t)
    → (gone ≡ false) × (b ≡ a') × (u ≡ t)
shown_open t a a' true late b u h = cc h
shown_open t a a' false true b u h = cc h
shown_open t a a' false false b u h = (refl, ap (λ (o : Accounts × Answer Session). o.0) h, cc h)

was_resolved :
    (c : Crypto) (token : String) (now : ℕ) (t : Session) (a a' : Accounts)
    → resolve_session c token now a ≡ (a', gives t)
    → WasResolved c token now t a a'
unfolding resolve_session
was_resolved c token now t a a' h = elim (Bool-cases (same token "")) [
  | inl e ↦ cc (rw e at h)
  | inr e ↦ by_row (first (has_token (c.digest token)) a.sessions) refl (rw e at h)
]
  where
    by_user :
        (s : SessionRow) (o : Option Account)
        → first (has_token (c.digest token)) a.sessions ≡ some s
        → first (has_account s.user_id) a.users ≡ o
        → resolved (with_user s o) now a ≡ (a', gives t)
        → WasResolved c token now t a a'
    by_user s none found known h = cc h
    by_user s (some u) found known h =
        let (open_, same_tables, same_session) =
          shown_open t a a' s.revoked (ltb s.expires_at now)
            (record a { sessions = map (seen s.id now) a.sessions })
            (shown_session s (shown_user u)) h in
        record {
          row = s;
          found = found;
          open_ = open_;
          same_id = ap (λ (x : Session). x.id) (sym same_session);
          same_user =
              ap (λ (x : Session). x.user.id) (sym same_session)
              ∙ (eq_iff u.id s.user_id).0 (first-passes (has_account s.user_id) a.users known);
          stored = ap (λ (x : Accounts). x.sessions) (sym same_tables);
        }

    by_row :
        (o : Option SessionRow)
        → first (has_token (c.digest token)) a.sessions ≡ o
        → resolved (joined o a.users) now a ≡ (a', gives t)
        → WasResolved c token now t a a'
    by_row none found h = cc h
    by_row (some s) found h = by_user s (first (has_account s.user_id) a.users) found refl h

-- The request of a browser that logs out.
abbrev pub departing : String → WebRequest → WebRequest
departing token r = record r { route = logs_out; session_cookie = some token }

-- A request with the cookie of a session.
abbrev pub returning : String → WebRequest → WebRequest
returning token r = record r { session_cookie = some token }

unauthenticated :
    (token : String) (r : WebRequest) (h : House)
    → (resolve_session h.crypto token r.draw.now h.accounts).1 ≡ denies invalid_session
    → (authenticate (returning token r) h).1 ≡ none
unfolding authenticate
unauthenticated token r h e = go (resolve_session h.crypto token r.draw.now h.accounts) e
  where
    go : (o : Accounts × Answer Session) → o.1 ≡ denies invalid_session → (identified o h).1 ≡ none
    go (a, gives t) e = cc e
    go (a, denies f) e = refl

is_own_open-true :
    (user_id id : String) (s : SessionRow)
    → user_id ≡ s.user_id
    → id ≡ s.id
    → s.revoked ≡ false
    → is_own_open user_id id s ≡ true
is_own_open-true user_id id s u i open_ =
    rw ((eq_iff s.id id).1 (sym i), (eq_iff s.user_id user_id).1 (sym u), open_) refl

revoke-gives :
    (user_id id : String) (a : Accounts)
    → count (is_own_open user_id id) a.sessions ≢ 0
    → (a' : Accounts) × (revoke user_id id a ≡ gives a')
unfolding revoke
revoke-gives user_id id a h = (
  record a { sessions = map (revoke_row (is_own_open user_id id)) a.sessions },
  rw (nonzero _ h) refl,
)
  where
    nonzero : (n : ℕ) → n ≢ 0 → (n == 0) ≡ false
    nonzero n h = ground arith

past_three :
    {A : Type 0} (b b' b'' : Bool) (x y z w : A)
    → b ≡ false
    → b' ≡ false
    → b'' ≡ false
    → (if b then x else (if b' then y else (if b'' then z else w))) ≡ w
past_three b b' b'' x y z w e e' e'' = rw (e, e', e'') refl

-- Nothing in the chain stops a request to log out that has the token of its session.
guarded-logout :
    (token : String) (r : WebRequest) (t : Session) (h : House)
    → h.installed ≡ true
    → verify_csrf h.crypto t.id r.csrf_header h.accounts ≡ true
    → guarded (departing token r) (some t) h ≡ logout (some t) h
unfolding dispatch
guarded-logout token r t h i v =
    let r' = departing token r in
    past_three (not h.installed && not (needs_no_installation (path r'.route)))
      (is_forged r' (some t) h) (needs_session r' (some t) h) _ _ _ _
      (ready h.installed (not (needs_no_installation (path r'.route))) i)
      (own (is_mutation (method r'.route)) (not (is_exempt (path r'.route)))
        (verify_csrf h.crypto t.id r.csrf_header h.accounts) v)
      (unprotected (same h.access_mode "accounts_required") (is_protected (path r'.route))
        (not (same (method r'.route) "GET")))
  where
    ready : (b c : Bool) → b ≡ true → (not b && c) ≡ false
    ready true c e = refl
    ready false c e = cc e

    own : (b c v : Bool) → v ≡ true → (b && c && not v) ≡ false
    own b c v e = ground arith

    unprotected : (b c d : Bool) → (b && c && d && false) ≡ false
    unprotected b c d = ground arith

module _ (token : String) (r : WebRequest) (t : Session) (h : House) (a : Accounts)
    (resolves : resolve_session h.crypto token r.draw.now h.accounts ≡ (a, gives t))
    (own : verify_csrf h.crypto t.id r.csrf_header a ≡ true) (installed : h.installed ≡ true) where
  -- The row of the session, once the request is authenticated.
  open_row :
      (s : SessionRow) × (first (has_token (h.crypto.digest token)) a.sessions ≡ some s)
      × (t.user.id ≡ s.user_id)
      × (t.id ≡ s.id)
      × (s.revoked ≡ false)
  open_row =
      let w = was_resolved h.crypto token r.draw.now t h.accounts a resolves in
      let hash = h.crypto.digest token in
      let kept = seen-KeepsRow w.row.id r.draw.now in
      (
        seen w.row.id r.draw.now w.row,
        ap (first (has_token hash)) w.stored
            ∙ first-map (has_token hash) (seen w.row.id r.draw.now) h.accounts.sessions
                (λ x. ap (λ (k : String). same k hash) (kept.keeps_token x)) w.found,
        w.same_user ∙ sym (kept.keeps_owner w.row),
        w.same_id ∙ sym (kept.keeps_id w.row),
        still_open w.row w.open_,
      )
    where
      still_open : (s : SessionRow) → s.revoked ≡ false → (seen s.id r.draw.now s).revoked ≡ false
      still_open s e = ground arith

  revokes_it : (b : Accounts) × (revoke t.user.id t.id a ≡ gives b)
  revokes_it =
      let (s, found, owner, it, open_) = open_row in
      revoke-gives t.user.id t.id a (
        first-counted_by (has_token (h.crypto.digest token)) (is_own_open t.user.id t.id) a.sessions
          found (is_own_open-true t.user.id t.id s owner it open_))

  authenticated :
      respond (departing token r) h
      ≡ guarded (departing token r) (some t) (record h { accounts = a })
  unfolding respond authenticate
  authenticated = rw resolves refl

  departure :
      (respond (departing token r) h)
      ≡ (record h { accounts = revokes_it.0 }, clears_cookies "logged_out")
  unfolding respond authenticate logout
  departure =
      authenticated
      ∙ guarded-logout token r t (record h { accounts = a }) installed own
      ∙ rw revokes_it.1 refl

  refused_later :
      (b : Accounts)
      → revoke t.user.id t.id a ≡ gives b
      → (rs : List WebRequest) (later : WebRequest)
      → (authenticate (returning token later) (respond_all rs (record h { accounts = b }))).1 ≡ none
  refused_later b gone rs later =
      let (s, found, owner, it, open_) = open_row in
      let m : House = record h { accounts = b } in
      let by = respond_all-ByCalls rs m in
      unauthenticated token later (respond_all rs m) (
        subst
          (λ c.
            (resolve_session c token later.draw.now (respond_all rs m).accounts).1
            ≡ denies invalid_session)
          (sym by.same_crypto)
          (subst (λ x. (resolve_session h.crypto token later.draw.now x).1 ≡ denies invalid_session)
            (sym by.made)
            (resolve_session-revoked h.crypto token s a b by.calls later.draw.now found (
              subst (λ u. revoke u s.id a ≡ gives b) owner
                (subst (λ x. revoke t.user.id x a ≡ gives b) it gone)))))

-- A logout with the cookie and the token of an open session, once installed, succeeds; the cookie is
-- then refused for good: no request that carries it has a session, at any time and after any further
-- requests of anyone.
pub respond-logout :
    (token : String) (r : WebRequest) (t : Session) (h : House) (a : Accounts)
    → resolve_session h.crypto token r.draw.now h.accounts ≡ (a, gives t)
    → verify_csrf h.crypto t.id r.csrf_header a ≡ true
    → h.installed ≡ true
    → (rs : List WebRequest) (later : WebRequest)
    → ((respond (departing token r) h).1 ≡ clears_cookies "logged_out")
      × ((authenticate (returning token later) (respond_all rs (respond (departing token r) h).0)).1
          ≡ none)
respond-logout token r t h a e own ready rs later =
    let (b, gone) = revokes_it token r t h a e own ready in
    let done = departure token r t h a e own ready in
    (
      ap (λ (o : House × Reply). o.1) done,
      subst (λ (x : House). (authenticate (returning token later) (respond_all rs x)).1 ≡ none)
          (sym (ap (λ (o : House × Reply). o.0) done))
          (refused_later token r t h a e own ready b gone rs later),
    )
