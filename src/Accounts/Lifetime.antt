-- ===== src/Accounts/Lifetime.antt =====
-- The life of a session: it is good until it expires, and not again once it is revoked.
use raspi_media_player.Base.{
  ℕ, String, true, false, ◌≡◌, ◌≢◌, ◌⊎◌, refl, sym, ap, ◌∙◌, some, List, [], ◌∷◌, ◌++◌, All, first,
  first-append, first-map, map, Bool-cases, inl, inr, same, eq_iff, arith,
}
use raspi_media_player.Accounts.Rows.{
  User, SessionRow, Accounts, Crypto, Draw, Answer, gives, denies,
}
use raspi_media_player.Accounts.Store.{
  has_token, shown_user, new_session, new_account, create_session, create_user_and_session,
  create_initial_admin_and_session,
}
use raspi_media_player.Accounts.Sessions.{resolve_session, seen, revoke_row, is_own_open}
use raspi_media_player.Accounts.Calls.{
  AuthCall, sets_up, signs_up, starts, sets_role, resolves, revokes, call, call_all, kept_accounts,
}
use raspi_media_player.Accounts.Writes.{
  started, signed_up, SignedUp-sessions, set_up, KeepsRow, seen-KeepsRow, revoke_row-KeepsRow,
  resolve_session-rows, assigned, first_of, revoked_rows,
}

-- What a call leaves of a session: it changes no more than whether it is revoked, and when it was last
-- seen, and it revokes no other than its own.
record Follows (x : AuthCall) (s t : SessionRow) : Type 0 where
  same_id : t.id ≡ s.id
  same_owner : t.user_id ≡ s.user_id
  same_expiry : t.expires_at ≡ s.expires_at
  no_return : (s.revoked ≡ false) ⊎ (t.revoked ≡ true)
  own_call : (x ≡ revokes s.user_id s.id) ⊎ (t.revoked ≡ s.revoked)

stays : (x : AuthCall) (s : SessionRow) → Follows x s s
stays x s = record {
  same_id = refl;
  same_owner = refl;
  same_expiry = refl;
  no_return = elim (Bool-cases s.revoked) [ inl e ↦ inr e | inr e ↦ inl e ];
  own_call = inr refl;
}

seen-Follows : (x : AuthCall) (id : String) (now : ℕ) (s : SessionRow) → Follows x s (seen id now s)
seen-Follows x id now s = elim (Bool-cases (same s.id id)) [
  | inl e ↦ rw e (record {
    same_id = refl;
    same_owner = refl;
    same_expiry = refl;
    no_return = (stays x s).no_return;
    own_call = inr refl;
  })
  | inr e ↦ rw e (stays x s)
]

revoke-Follows :
    (user_id id : String) (s : SessionRow)
    → Follows (revokes user_id id) s (revoke_row (is_own_open user_id id) s)
revoke-Follows user_id id s = elim (Bool-cases (is_own_open user_id id s)) [
  | inl e ↦ rw e (record {
    same_id = refl;
    same_owner = refl;
    same_expiry = refl;
    no_return = inr refl;
    own_call = inl (own e);
  })
  | inr e ↦ rw e (stays (revokes user_id id) s)
]
  where
    own : is_own_open user_id id s ≡ true → revokes user_id id ≡ revokes s.user_id s.id
    own e = ground (arith, eq_iff s.id id, eq_iff s.user_id user_id)

-- The session of a token, where there is one, stays the one of the token.
module _ (c : Crypto) (hash : String) where
  abbrev Succeeds : AuthCall → SessionRow → Accounts → Type 0
  Succeeds x s a = (t : SessionRow) × (first (has_token hash) a.sessions ≡ some t) × Follows x s t

  added :
      (x : AuthCall) (a a' : Accounts) (d : Draw) (u : User) (s : SessionRow)
      → a'.sessions ≡ a.sessions ++ new_session c d u ∷ []
      → first (has_token hash) a.sessions ≡ some s
      → Succeeds x s a'
  added x a a' d u s rows found = (
    s,
    rw rows (first-append (has_token hash) a.sessions (new_session c d u ∷ []) found),
    stays x s,
  )

  mapped :
      (x : AuthCall) (a a' : Accounts) (f : SessionRow → SessionRow) (s : SessionRow)
      → KeepsRow f
      → Follows x s (f s)
      → a'.sessions ≡ map f a.sessions
      → first (has_token hash) a.sessions ≡ some s
      → Succeeds x s a'
  mapped x a a' f s keeps follows rows found = (
    f s,
    rw rows (
        first-map (has_token hash) f a.sessions (λ t. ap (λ h. same h hash) (keeps.keeps_token t))
          found),
    follows,
  )

  call-Succeeds :
      (x : AuthCall) (a a' : Accounts) (s : SessionRow)
      → call c x a ≡ gives a'
      → first (has_token hash) a.sessions ≡ some s
      → Succeeds x s a'
  unfolding call
  call-Succeeds (sets_up d name password) a a' s h found =
      let (i, done) = first_of (create_initial_admin_and_session c d name password a) a' h in
      let (display, b, w, last) = set_up c d name password a a' i done in
      let u = new_account c d true display password in
      added (sets_up d name password) a a' d (shown_user u) s
        (ap (λ (x : Accounts). x.sessions) last ∙ SignedUp-sessions c d u a b w) found
  call-Succeeds (signs_up d name password) a a' s h found =
      let (i, done) = first_of (create_user_and_session c d name password a) a' h in
      let (display, shown, w) = signed_up c d name password a a' i done in
      let u = new_account c d false display password in
      added (signs_up d name password) a a' d (shown_user u) s (SignedUp-sessions c d u a a' w)
        found
  call-Succeeds (starts d u) a a' s h found =
      let (i, done) = first_of (create_session c d u a) a' h in
      added (starts d u) a a' d u s
        (ap (λ (x : Accounts). x.sessions) (started c d u a a' i done).stored) found
  call-Succeeds (sets_role id b) a a' s h found = (
    s,
    rw (ap (λ (x : Accounts). x.sessions) (assigned id b a a' h).stored) found,
    stays (sets_role id b) s,
  )
  call-Succeeds (resolves token now) a a' s h found =
      let same_tables : (resolve_session c token now a).0 ≡ a' = cc h in
      go same_tables (resolve_session-rows c token now a)
    where
      go :
          (resolve_session c token now a).0 ≡ a'
          → ((resolve_session c token now a).0 ≡ a)
            ⊎ ((id : String) × ((resolve_session c token now a).0
                  ≡ record a { sessions = map (seen id now) a.sessions }))
          → Succeeds (resolves token now) s a'
      go e (inl kept) = (
        s,
        rw (ap (λ (x : Accounts). x.sessions) (sym e ∙ kept)) found,
        stays (resolves token now) s,
      )
      go e (inr (id, kept)) =
          mapped (resolves token now) a a' (seen id now) s (seen-KeepsRow id now)
            (seen-Follows (resolves token now) id now s)
            (ap (λ (x : Accounts). x.sessions) (sym e ∙ kept)) found
  call-Succeeds (revokes user_id id) a a' s h found =
      let test = is_own_open user_id id in
      mapped (revokes user_id id) a a' (revoke_row test) s (revoke_row-KeepsRow test)
        (revoke-Follows user_id id s)
        (ap (λ (x : Accounts). x.sessions) (revoked_rows user_id id a a' h)) found

  kept-Succeeds :
      (x : AuthCall) (a : Accounts) (s : SessionRow)
      → first (has_token hash) a.sessions ≡ some s
      → Succeeds x s (kept_accounts a (call c x a))
  kept-Succeeds x a s found = go (call c x a) refl
    where
      go : (r : Answer Accounts) → call c x a ≡ r → Succeeds x s (kept_accounts a r)
      go (gives a') h = call-Succeeds x a a' s h found
      go (denies e) h = (s, found, stays x s)

  -- A revoked session stays revoked.
  abbrev pub IsRevoked : Accounts → Type 0
  IsRevoked a = (s : SessionRow) × (first (has_token hash) a.sessions ≡ some s) × (s.revoked ≡ true)

  pub call_all-IsRevoked :
      (xs : List AuthCall) (a : Accounts) → IsRevoked a → IsRevoked (call_all c xs a)
  unfolding call_all
  call_all-IsRevoked [] a r = r
  call_all-IsRevoked (x ∷ xs) a (s, found, gone) =
      let (t, found', follows) = kept-Succeeds x a s found in
      call_all-IsRevoked xs (kept_accounts a (call c x a)) (t, found', still t follows.no_return)
    where
      still : (t : SessionRow) → (s.revoked ≡ false) ⊎ (t.revoked ≡ true) → t.revoked ≡ true
      still t (inl live) = cc (live, gone)
      still t (inr gone') = gone'

  -- A session that is open until a moment.
  pub record IsOpen (user_id id : String) (end : ℕ) (a : Accounts) : Type 0 where
    pub row : SessionRow
    pub found : first (has_token hash) a.sessions ≡ some row
    pub open_ : row.revoked ≡ false
    pub is_own : row.user_id ≡ user_id
    pub is_it : row.id ≡ id
    pub until : row.expires_at ≡ end

  pub call_all-IsOpen :
      (user_id id : String) (end : ℕ) (xs : List AuthCall) (a : Accounts)
      → All (λ x. x ≢ revokes user_id id) xs
      → IsOpen user_id id end a
      → IsOpen user_id id end (call_all c xs a)
  unfolding call_all
  call_all-IsOpen user_id id end [] a others o = o
  call_all-IsOpen user_id id end (x ∷ xs) a others o =
      let (t, found', follows) = kept-Succeeds x a o.row o.found in
      call_all-IsOpen user_id id end xs (kept_accounts a (call c x a)) others.1 (record {
        row = t;
        found = found';
        open_ = still t follows.own_call;
        is_own = follows.same_owner ∙ o.is_own;
        is_it = follows.same_id ∙ o.is_it;
        until = follows.same_expiry ∙ o.until;
      })
    where
      still :
          (t : SessionRow)
          → (x ≡ revokes o.row.user_id o.row.id) ⊎ (t.revoked ≡ o.row.revoked)
          → t.revoked ≡ false
      still t (inl own) = absurd (others.0 (cc (own, o.is_own, o.is_it)))
      still t (inr e) = e ∙ o.open_
