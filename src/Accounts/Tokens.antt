-- ===== src/Accounts/Tokens.antt =====
-- What a token is good for: `ResolveSession` and `VerifyCSRF` after `CreateSession` and `Revoke`.
use raspi_media_player.Base.{
  ℕ, ◌≤◌, ◌+◌, String, true, false, ◌≡◌, ◌≢◌, refl, ap, ◌∙◌, Option, none, some, List, All, count,
  first, first-some, first-All, first-map, first-passes, first-fresh, ltb, Bool-cases, inl, inr,
  same, same_ne, eq_iff, eq_refl, arith,
}
use raspi_media_player.Accounts.Rows.{
  Account, User, SessionRow, Session, IssuedSession, Accounts, Crypto, Draw, invalid_session, gives,
  denies,
}
use raspi_media_player.Accounts.Store.{
  has_account, has_token, shown_user, new_session, create_session,
}
use raspi_media_player.Accounts.Sessions.{
  resolve_session, resolved, with_user, shown_session, revoke, revoke_row, is_own_open,
}
use raspi_media_player.Accounts.Calls.{AuthCall, revokes, call_all, IsSound}
use raspi_media_player.Accounts.Writes.{started, revoked_rows, revoke_row-KeepsRow}
use raspi_media_player.Accounts.Invariant.{create_session-IsSound, call_all-IsSound}
use raspi_media_player.Accounts.Lifetime.{IsRevoked, call_all-IsRevoked, IsOpen, call_all-IsOpen}

not_after : (m n : ℕ) → n ≤ m → ltb m n ≡ false
not_after m n h = ground arith

resolves_revoked :
    (c : Crypto) (token : String) (now : ℕ) (a : Accounts)
    → IsRevoked c (c.digest token) a
    → (resolve_session c token now a).1 ≡ denies invalid_session
unfolding resolve_session
resolves_revoked c token now a (s, found, gone) = elim (Bool-cases (same token "")) [
  | inl e ↦ rw e refl
  | inr e ↦ rw (e, found) (go (first (has_account s.user_id) a.users))
]
  where
    go : (o : Option Account) → (resolved (with_user s o) now a).1 ≡ denies invalid_session
    go none = refl
    go (some u) = rw gone refl

-- Once the session of a token is revoked, the token is refused for good: at any time, and after any
-- further calls of any clients, refused ones included.
pub resolve_session-revoked :
    (c : Crypto) (token : String) (s : SessionRow) (a a' : Accounts) (xs : List AuthCall) (now : ℕ)
    → first (has_token (c.digest token)) a.sessions ≡ some s
    → revoke s.user_id s.id a ≡ gives a'
    → (resolve_session c token now (call_all c xs a')).1 ≡ denies invalid_session
resolve_session-revoked c token s a a' xs now found h =
    let test = is_own_open s.user_id s.id in
    let hash = c.digest token in
    let keeps = revoke_row-KeepsRow test in
    let found' : first (has_token hash) a'.sessions ≡ some (revoke_row test s) =
      rw (ap (λ (x : Accounts). x.sessions) (revoked_rows s.user_id s.id a a' h)) (
        first-map (has_token hash) (revoke_row test) a.sessions
          (λ t. ap (λ (k : String). same k hash) (keeps.keeps_token t)) found) in
    resolves_revoked c token now (call_all c xs a')
      (call_all-IsRevoked c hash xs a' (revoke_row test s, found', gone))
  where
    gone : (revoke_row (is_own_open s.user_id s.id) s).revoked ≡ true
    gone = ground (arith, eq_refl s.id, eq_refl s.user_id)

resolves_open :
    (c : Crypto) (token user_id id : String) (end now : ℕ) (a : Accounts)
    → IsSound a
    → IsOpen c (c.digest token) user_id id end a
    → token ≢ ""
    → now ≤ end
    → (t : Session) × ((resolve_session c token now a).1 ≡ gives t)
      × (t.id ≡ id)
      × (t.user.id ≡ user_id)
unfolding resolve_session
resolves_open c token user_id id end now a s o token_given early =
    let (u, known) = first-some (has_account o.row.user_id) a.users (
      first-All (has_token (c.digest token))
        (λ (t : SessionRow). count (has_account t.user_id) a.users ≢ 0) a.sessions s.owners
        o.found) in
    (
      shown_session o.row (shown_user u),
      rw
          (
            same_ne token "" token_given,
            o.found,
            known,
            o.open_,
            not_after o.row.expires_at now (timely o.until),
          )
          refl,
      o.is_it,
      (eq_iff u.id o.row.user_id).0 (first-passes (has_account o.row.user_id) a.users known)
          ∙ o.is_own,
    )
  where
    timely : o.row.expires_at ≡ end → now ≤ o.row.expires_at
    timely e = omega (arith, e, early)

-- A session that is created is the one that its token resolves to, with its user, until it expires,
-- after any calls of any clients that do not revoke that session.
pub create_session-resolves :
    (c : Crypto) (d : Draw) (u : User) (a a' : Accounts) (i : IssuedSession) (xs : List AuthCall)
    (now : ℕ)
    → IsSound a
    → create_session c d u a ≡ gives (a', i)
    → d.token ≢ ""
    → All (λ x. x ≢ revokes u.id d.session_id) xs
    → now ≤ d.now + c.lifetime
    → (t : Session) × ((resolve_session c d.token now (call_all c xs a')).1 ≡ gives t)
      × (t.id ≡ d.session_id)
      × (t.user.id ≡ u.id)
create_session-resolves c d u a a' i xs now s h token_given others early =
    let w = started c d u a a' i h in
    let hash = c.digest d.token in
    let sound : IsSound a' = create_session-IsSound c d u a a' i s h in
    let found : first (has_token hash) a'.sessions ≡ some (new_session c d u) =
      rw (ap (λ (x : Accounts). x.sessions) w.stored) (
        first-fresh (has_token hash) a.sessions (new_session c d u) w.fresh_token (eq_refl hash)) in
    resolves_open c d.token u.id d.session_id (d.now + c.lifetime) now (call_all c xs a')
      (call_all-IsSound c xs a' sound)
      (call_all-IsOpen c hash u.id d.session_id (d.now + c.lifetime) xs a' others (record {
        row = new_session c d u;
        found = found;
        open_ = refl;
        is_own = refl;
        is_it = refl;
        until = refl;
      }))
      token_given early
