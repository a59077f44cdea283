-- ===== src/Accounts/Invariant.antt =====
-- The invariant of the tables `users` and `sessions`, kept by every method of internal/auth/store.go.
use raspi_media_player.Base.{
  ℕ, ◌+◌, ◌≤◌, String, Bool, true, false, ◌≡◌, ◌≢◌, ◌⊎◌, refl, sym, ap, ◌∙◌, subst, List, [], ◌∷◌,
  ◌++◌, All, All-imp, All-append, All-map, map-Differ, append-Differ, count, count-none,
  count-append, count-map_keep, map, inl, inr, same, eq_iff, same_codes, same_codes_self, arith,
}
use raspi_media_player.Accounts.Rows.{
  Account, User, SessionRow, IssuedSession, Accounts, Crypto, Draw, Answer, gives, denies,
}
use raspi_media_player.Accounts.Store.{
  has_account, has_key, is_administrator, with_role, new_session, new_account, shown_user,
  insert_user, create_session, create_initial_admin_and_session, create_user_and_session, set_admin,
}
use raspi_media_player.Accounts.Sessions.{resolve_session, seen, revoke_row, is_own_open}
use raspi_media_player.Accounts.Calls.{
  AuthCall, sets_up, signs_up, starts, sets_role, resolves, revokes, call, call_all, kept_accounts,
  HasAdministrator, IsSound,
}
use raspi_media_player.Accounts.Roles.{count-with_role, with_role-keeps, one_if}
use raspi_media_player.Accounts.Writes.{
  may_take, inserted, started, SignedUp, signed_up, set_up, KeepsRow, seen-KeepsRow,
  revoke_row-KeepsRow, resolve_session-rows, WasAssigned, assigned, first_of, revoked_rows,
}

-- No text of the column is `x`, where no row passes the test for it.
unequal :
    {A : Type 0} (key : A → String) (x : String) (rows : List A)
    → count (λ r. same (key r) x) rows ≡ 0
    → All (λ r. x ≢ key r) rows
unequal key x rows h =
    All-imp rows (λ r e p. cc (e, (eq_iff (key r) x).1 (sym p)))
      (count-none (λ r. same (key r) x) rows h)

unequal_keys :
    (key : List ℕ) (users : List Account)
    → count (has_key key) users ≡ 0
    → All (λ (u : Account). key ≢ u.username_key) users
unequal_keys key users h =
    All-imp users (λ u e p. cc (e, subst (λ k. same_codes k key ≡ true) p (same_codes_self key)))
      (count-none (has_key key) users h)

pub insert_user-IsSound :
    (u : Account) (a a' : Accounts) → IsSound a → insert_user u a ≡ gives a' → IsSound a'
insert_user-IsSound u a a' s h =
    let w = inserted u a a' h in
    subst IsSound (sym w.stored) (record {
      ids =
          append-Differ (λ (v : Account). v.id) a.users u s.ids
            (unequal (λ (v : Account). v.id) u.id a.users w.fresh_id);
      keys =
          append-Differ (λ (v : Account). v.username_key) a.users u s.keys
            (unequal_keys u.username_key a.users w.fresh_key);
      session_ids = s.session_ids;
      tokens = s.tokens;
      owners =
          All-imp a.sessions
            (λ t known none.
              known (omega (arith, count-append (has_account t.user_id) a.users (u ∷ []))))
            s.owners;
      administrated = more s.administrated;
    })
  where
    more : HasAdministrator a → HasAdministrator (record a { users = a.users ++ u ∷ [] })
    more (inl open_) = inl open_
    more (inr one) = inr (omega (arith, one, count-append is_administrator a.users (u ∷ [])))

pub create_session-IsSound :
    (c : Crypto) (d : Draw) (u : User) (a a' : Accounts) (i : IssuedSession)
    → IsSound a
    → create_session c d u a ≡ gives (a', i)
    → IsSound a'
create_session-IsSound c d u a a' i s h =
    let w = started c d u a a' i h in
    let row = new_session c d u in
    subst IsSound (sym w.stored) (record {
      ids = s.ids;
      keys = s.keys;
      session_ids =
          append-Differ (λ (t : SessionRow). t.id) a.sessions row s.session_ids
            (unequal (λ (t : SessionRow). t.id) d.session_id a.sessions w.fresh_id);
      tokens =
          append-Differ (λ (t : SessionRow). t.token_hash) a.sessions row s.tokens
            (unequal (λ (t : SessionRow). t.token_hash) (c.digest d.token) a.sessions
              w.fresh_token);
      owners =
          All-append (λ (t : SessionRow). count (has_account t.user_id) a.users ≢ 0) a.sessions
            (row ∷ []) s.owners (w.owner, tt);
      administrated = s.administrated;
    })

map_sessions-IsSound :
    (f : SessionRow → SessionRow) (a : Accounts)
    → KeepsRow f
    → IsSound a
    → IsSound (record a { sessions = map f a.sessions })
map_sessions-IsSound f a k s = record {
  ids = s.ids;
  keys = s.keys;
  session_ids = map-Differ (λ (t : SessionRow). t.id) f a.sessions k.keeps_id s.session_ids;
  tokens = map-Differ (λ (t : SessionRow). t.token_hash) f a.sessions k.keeps_token s.tokens;
  owners =
      All-map (λ (t : SessionRow). count (has_account t.user_id) a.users ≢ 0) f a.sessions
        (All-imp a.sessions
          (λ t known. subst (λ o. count (has_account o) a.users ≢ 0) (sym (k.keeps_owner t)) known)
          s.owners);
  administrated = s.administrated;
}

-- One administrator at least is left.
one_left :
    (b role : Bool) (n m : ℕ)
    → may_take b role n ≡ true
    → m + one_if role ≡ n + one_if b
    → 1 ≤ n
    → 1 ≤ m
one_left true true n m spared h one = omega (arith, one, h)
one_left true false n m spared h one = omega (arith, one, h)
one_left false true n m spared h one = ground arith
one_left false false n m spared h one = omega (arith, one, h)

set_admin-IsSound :
    (id : String) (b : Bool) (a a' : Accounts)
    → IsSound a
    → set_admin id b a ≡ gives a'
    → IsSound a'
set_admin-IsSound id b a a' s h =
    let w = assigned id b a a' h in
    let f = with_role id b in
    subst IsSound (sym w.stored) (record {
      ids = map-Differ (λ (u : Account). u.id) f a.users (λ u. (with_role-keeps id b u).0) s.ids;
      keys =
          map-Differ (λ (u : Account). u.username_key) f a.users (λ u. (with_role-keeps id b u).1)
            s.keys;
      session_ids = s.session_ids;
      tokens = s.tokens;
      owners =
          All-imp a.sessions (λ t known none. known (sym (users_kept t.user_id) ∙ none)) s.owners;
      administrated = still w s.administrated;
    })
  where
    users_kept :
        (o : String)
        → count (has_account o) (map (with_role id b) a.users) ≡ count (has_account o) a.users
    users_kept o =
        count-map_keep (with_role id b) (has_account o) (has_account o) a.users
          (λ u. ap (λ i. same i o) (with_role-keeps id b u).0)

    still :
        WasAssigned id b a a'
        → HasAdministrator a
        → HasAdministrator (record a { users = map (with_role id b) a.users })
    still w (inl open_) = inl open_
    still w (inr one) = inr (
        one_left b w.target.administrator (count is_administrator a.users)
          (count is_administrator (map (with_role id b) a.users)) w.spared
          (count-with_role id b w.target a.users s.ids w.found) one)

SignedUp-IsSound :
    (c : Crypto) (d : Draw) (u : Account) (a a' : Accounts)
    → IsSound a
    → SignedUp c d u a a'
    → IsSound a'
SignedUp-IsSound c d u a a' s w =
    create_session-IsSound c d (shown_user u) w.between a' w.issued
      (insert_user-IsSound u a w.between s w.user_stored) w.session_stored

-- The first administrator is there when the installation is marked complete.
completed-IsSound :
    (c : Crypto) (d : Draw) (u : Account) (a b : Accounts)
    → u.administrator ≡ true
    → IsSound a
    → SignedUp c d u a b
    → IsSound (record b { completed = true })
completed-IsSound c d u a b admin s w =
    let t = SignedUp-IsSound c d u a b s w in
    record {
      ids = t.ids;
      keys = t.keys;
      session_ids = t.session_ids;
      tokens = t.tokens;
      owners = t.owners;
      administrated = inr (
          subst (λ (users : List Account). 1 ≤ count is_administrator users) (sym same_users)
            (omega (arith, count-append is_administrator a.users (u ∷ []), one)));
    }
  where
    same_users : b.users ≡ a.users ++ u ∷ []
    same_users =
        ap (λ (x : Accounts). x.users)
          (started c d (shown_user u) w.between b w.issued w.session_stored).stored
        ∙ ap (λ (x : Accounts). x.users) (inserted u a w.between w.user_stored).stored

    one : count is_administrator (u ∷ []) ≡ 1
    one = rw admin refl

resolve_session-IsSound :
    (c : Crypto) (token : String) (now : ℕ) (a : Accounts)
    → IsSound a
    → IsSound (resolve_session c token now a).0
resolve_session-IsSound c token now a s = either_or (resolve_session-rows c token now a)
  where
    either_or :
        ((resolve_session c token now a).0 ≡ a)
          ⊎ ((id : String) × ((resolve_session c token now a).0
                ≡ record a { sessions = map (seen id now) a.sessions }))
        → IsSound (resolve_session c token now a).0
    either_or (inl e) = subst IsSound (sym e) s
    either_or (inr (id, e)) =
        subst IsSound (sym e) (map_sessions-IsSound (seen id now) a (seen-KeepsRow id now) s)

-- A call that succeeds keeps the ids, the keys and the tokens different, every session with a user, and
-- an administrator once the installation is complete.
pub call-IsSound :
    (c : Crypto) (x : AuthCall) (a a' : Accounts) → IsSound a → call c x a ≡ gives a' → IsSound a'
unfolding call
call-IsSound c (sets_up d name password) a a' s h =
    let (i, done) = first_of (create_initial_admin_and_session c d name password a) a' h in
    let (display, b, w, last) = set_up c d name password a a' i done in
    subst IsSound (sym last)
      (completed-IsSound c d (new_account c d true display password) a b refl s w)
call-IsSound c (signs_up d name password) a a' s h =
    let (i, done) = first_of (create_user_and_session c d name password a) a' h in
    let (display, shown, w) = signed_up c d name password a a' i done in
    SignedUp-IsSound c d (new_account c d false display password) a a' s w
call-IsSound c (starts d u) a a' s h =
    let (i, done) = first_of (create_session c d u a) a' h in
    create_session-IsSound c d u a a' i s done
call-IsSound c (sets_role id b) a a' s h = set_admin-IsSound id b a a' s h
call-IsSound c (resolves token now) a a' s h =
    subst IsSound (cc) (resolve_session-IsSound c token now a s)
call-IsSound c (revokes user_id id) a a' s h =
    let test = is_own_open user_id id in
    subst IsSound (sym (revoked_rows user_id id a a' h))
      (map_sessions-IsSound (revoke_row test) a (revoke_row-KeepsRow test) s)

-- The tables stay sound under any calls of any clients, refused ones included: in particular the
-- final administrator stays.
pub call_all-IsSound :
    (c : Crypto) (xs : List AuthCall) (a : Accounts) → IsSound a → IsSound (call_all c xs a)
unfolding call_all
call_all-IsSound c [] a s = s
call_all-IsSound c (x ∷ xs) a s =
    call_all-IsSound c xs (kept_accounts a (call c x a)) (go (call c x a) refl)
  where
    go : (r : Answer Accounts) → call c x a ≡ r → IsSound (kept_accounts a r)
    go (gives a') h = call-IsSound c x a a' s h
    go (denies e) h = s
