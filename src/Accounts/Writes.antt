-- ===== src/Accounts/Writes.antt =====
-- What a write of internal/auth/store.go passed and stored, where it succeeds.
use raspi_media_player.Base.{
  ℕ, String, Bool, true, false, not, ◌≡◌, ◌≢◌, ◌⊎◌, refl, ap, ◌∙◌, Option, none, some, List, [],
  ◌∷◌, ◌++◌, count, first, first-some, map, ltb, leb, ◌&&◌, Bool-cases, inl, inr, same, arith,
}
use raspi_media_player.Accounts.Rows.{
  Account, User, SessionRow, IssuedSession, Accounts, Crypto, Draw, invalid_password,
  already_complete, Answer, gives, denies,
}
use raspi_media_player.Accounts.Names.{normalize_username, valid_password}
use raspi_media_player.Accounts.Store.{
  ◌>>=◌, require, named, has_account, has_key, has_session, has_token, is_administrator, with_role,
  new_session, new_account, shown_user, insert_user, create_session,
  create_initial_admin_and_session, create_user_and_session, set_admin,
}
use raspi_media_player.Accounts.Sessions.{
  resolve_session, resolved, joined, revoke, seen, revoke_row, is_own_open,
}
use raspi_media_player.Accounts.Calls.{accounts_of}

abbrev pub may_take : Bool → Bool → ℕ → Bool
may_take true role administrators = true
may_take false role administrators = not (role && leb administrators 1)

-- What an insertion into `users` passed.
pub record WasInserted (u : Account) (a a' : Accounts) : Type 0 where
  pub fresh_id : count (has_account u.id) a.users ≡ 0
  pub fresh_key : count (has_key u.username_key) a.users ≡ 0
  pub stored : a' ≡ record a { users = a.users ++ u ∷ [] }

pub inserted : (u : Account) (a a' : Accounts) → insert_user u a ≡ gives a' → WasInserted u a a'
unfolding insert_user
inserted u a a' h = ground arith

pub record WasStarted (c : Crypto) (d : Draw) (u : User) (a a' : Accounts) : Type 0 where
  pub owner : count (has_account u.id) a.users ≢ 0
  pub fresh_id : count (has_session d.session_id) a.sessions ≡ 0
  pub fresh_token : count (has_token (c.digest d.token)) a.sessions ≡ 0
  pub stored : a' ≡ record a { sessions = a.sessions ++ new_session c d u ∷ [] }

pub started :
    (c : Crypto) (d : Draw) (u : User) (a a' : Accounts) (i : IssuedSession)
    → create_session c d u a ≡ gives (a', i)
    → WasStarted c d u a a'
unfolding create_session
started c d u a a' i h = ground arith

-- A sign-up: the insertion of the user, and of a session for it.
pub record SignedUp (c : Crypto) (d : Draw) (u : Account) (a a' : Accounts) : Type 0 where
  pub between : Accounts
  pub issued : IssuedSession
  pub user_stored : insert_user u a ≡ gives between
  pub session_stored : create_session c d (shown_user u) between ≡ gives (a', issued)

pub and_then :
    {S T : Type 0} (m : Answer S) (f : S → Answer T) {t : T}
    → (m >>= f) ≡ gives t
    → (x : S) × (m ≡ gives x) × (f x ≡ gives t)
and_then (denies e) f h = cc h
and_then (gives x) f h = (x, refl, h)

pub signed_up :
    (c : Crypto) (d : Draw) (name password : String) (a a' : Accounts) (i : IssuedSession)
    → create_user_and_session c d name password a ≡ gives (a', i)
    → (display : String) × (normalize_username name ≡ some display)
      × SignedUp c d (new_account c d false display password) a a'
unfolding create_user_and_session
signed_up c d name password a a' i h =
    let (display, shown, rest) = and_then (named (normalize_username name)) _ h in
    let (passed, valid, rest') =
      and_then (require (valid_password password) invalid_password) _ rest in
    let (b, stored, rest'') =
      and_then (insert_user (new_account c d false display password) a) _ rest' in
    (
      display,
      ground arith,
      record { between = b; issued = i; user_stored = stored; session_stored = rest'' },
    )

pub set_up :
    (c : Crypto) (d : Draw) (name password : String) (a a' : Accounts) (i : IssuedSession)
    → create_initial_admin_and_session c d name password a ≡ gives (a', i)
    → (display : String) × (b : Accounts) × SignedUp c d (new_account c d true display password) a b
      × (a' ≡ record b { completed = true })
unfolding create_initial_admin_and_session
set_up c d name password a a' i h =
    let (display, shown, rest) = and_then (named (normalize_username name)) _ h in
    let (passed, valid, rest1) =
      and_then (require (valid_password password) invalid_password) _ rest in
    let (passed', open_, rest2) = and_then (require (not a.completed) already_complete) _ rest1 in
    let (b, stored, rest3) =
      and_then (insert_user (new_account c d true display password) a) _ rest2 in
    let (r, begun, rest4) =
      and_then (create_session c d (shown_user (new_account c d true display password)) b) _
        rest3 in
    (
      display,
      r.0,
      record { between = b; issued = r.1; user_stored = stored; session_stored = begun },
      ground arith,
    )

-- What a statement on the session rows leaves.
pub record KeepsRow (f : SessionRow → SessionRow) : Type 0 where
  pub keeps_id : (s : SessionRow) → (f s).id ≡ s.id
  pub keeps_token : (s : SessionRow) → (f s).token_hash ≡ s.token_hash
  pub keeps_owner : (s : SessionRow) → (f s).user_id ≡ s.user_id

pub seen-KeepsRow : (id : String) (now : ℕ) → KeepsRow (seen id now)
seen-KeepsRow id now = record {
  keeps_id = λ s. ground arith;
  keeps_token = λ s. ground arith;
  keeps_owner = λ s. ground arith;
}

pub revoke_row-KeepsRow : (test : SessionRow → Bool) → KeepsRow (revoke_row test)
revoke_row-KeepsRow test = record {
  keeps_id = λ s. ground arith;
  keeps_token = λ s. ground arith;
  keeps_owner = λ s. ground arith;
}

-- A resolution writes at most when a session was last seen.
pub resolve_session-rows :
    (c : Crypto) (token : String) (now : ℕ) (a : Accounts)
    → ((resolve_session c token now a).0 ≡ a)
      ⊎ ((id : String) × ((resolve_session c token now a).0
            ≡ record a { sessions = map (seen id now) a.sessions }))
unfolding resolve_session
resolve_session-rows c token now a = elim (Bool-cases (same token "")) [
  | inl e ↦ rw e (inl refl)
  | inr e ↦ rw e (go (joined (first (has_token (c.digest token)) a.sessions) a.users))
]
  where
    go :
        (o : Option (SessionRow × User))
        → ((resolved o now a).0 ≡ a)
          ⊎ ((id : String) × ((resolved o now a).0
                ≡ record a { sessions = map (seen id now) a.sessions }))
    go none = inl refl
    go (some (t, u)) = elim (Bool-cases t.revoked) [
      | inl e ↦ rw e (inl refl)
      | inr e ↦ elim (Bool-cases (ltb t.expires_at now)) [
        | inl f ↦ rw (e, f) (inl refl)
        | inr f ↦ rw (e, f) (inr (t.id, refl))
      ]
    ]

-- What a change of role passed: it gives the role, or there is another administrator.
pub record WasAssigned (id : String) (b : Bool) (a a' : Accounts) : Type 0 where
  pub target : Account
  pub found : first (has_account id) a.users ≡ some target
  pub spared : may_take b target.administrator (count is_administrator a.users) ≡ true
  pub stored : a' ≡ record a { users = map (with_role id b) a.users }

pub assigned :
    (id : String) (b : Bool) (a a' : Accounts) → set_admin id b a ≡ gives a' → WasAssigned id b a a'
unfolding set_admin
assigned id b a a' h =
    let known : count (has_account id) a.users ≢ 0 = known_target b h in
    let (u, e) = first-some (has_account id) a.users known in
    record { target = u; found = e; spared = spare b u e h; stored = form b h }
  where
    known_target : (b : Bool) → set_admin id b a ≡ gives a' → count (has_account id) a.users ≢ 0
    known_target true h = ground arith
    known_target false h = ground arith

    spare :
        (b : Bool) (u : Account)
        → first (has_account id) a.users ≡ some u
        → set_admin id b a ≡ gives a'
        → may_take b u.administrator (count is_administrator a.users) ≡ true
    spare true u e h = refl
    spare false u e h = ground arith

    form :
        (b : Bool)
        → set_admin id b a ≡ gives a'
        → a' ≡ record a { users = map (with_role id b) a.users }
    form true h = ground arith
    form false h = ground arith

pub first_of :
    {T : Type 0} (m : Answer (Accounts × T)) (a' : Accounts)
    → accounts_of m ≡ gives a'
    → (t : T) × (m ≡ gives (a', t))
first_of (denies e) a' h = cc h
first_of (gives r) a' h = (r.1, cc)

pub revoked_rows :
    (user_id id : String) (a a' : Accounts)
    → revoke user_id id a ≡ gives a'
    → a' ≡ record a { sessions = map (revoke_row (is_own_open user_id id)) a.sessions }
unfolding revoke
revoked_rows user_id id a a' h = ground arith

pub SignedUp-sessions :
    (c : Crypto) (d : Draw) (u : Account) (a a' : Accounts)
    → SignedUp c d u a a'
    → a'.sessions ≡ a.sessions ++ new_session c d (shown_user u) ∷ []
SignedUp-sessions c d u a a' w =
    ap (λ (x : Accounts). x.sessions)
      (started c d (shown_user u) w.between a' w.issued w.session_stored).stored
    ∙ ap (λ (rows : List SessionRow). rows ++ new_session c d (shown_user u) ∷ [])
        (ap (λ (x : Accounts). x.sessions) (inserted u a w.between w.user_stored).stored)
