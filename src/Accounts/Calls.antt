-- ===== src/Accounts/Calls.antt =====
-- Every method of internal/auth/store.go that writes, as one type of calls.
use raspi_media_player.Base.{
  ℕ, String, Bool, false, ◌≡◌, ◌≢◌, ◌⊎◌, ◌≤◌, List, [], ◌∷◌, All, Differ, count,
}
use raspi_media_player.Accounts.Rows.{
  Account, User, SessionRow, Accounts, Crypto, Draw, Answer, gives, denies,
}
use raspi_media_player.Accounts.Store.{
  is_administrator, has_account, create_session, create_initial_admin_and_session,
  create_user_and_session, set_admin,
}
use raspi_media_player.Accounts.Sessions.{resolve_session, revoke}

pub data AuthCall : Type 0 where
  sets_up signs_up : Draw → String → String → AuthCall
  starts : Draw → User → AuthCall
  sets_role : String → Bool → AuthCall
  resolves : String → ℕ → AuthCall
  revokes : String → String → AuthCall

-- An error leaves the tables as they were.
abbrev pub kept_accounts : Accounts → Answer Accounts → Accounts
kept_accounts a (gives a') = a'
kept_accounts a (denies e) = a

abbrev pub accounts_of {ℓ} : {T : Type ℓ} → Answer (Accounts × T) → Answer Accounts
accounts_of (gives r) = gives r.0
accounts_of (denies e) = denies e

unfoldable pub call : Crypto → AuthCall → Accounts → Answer Accounts
call c (sets_up d name password) a =
    accounts_of (create_initial_admin_and_session c d name password a)
call c (signs_up d name password) a = accounts_of (create_user_and_session c d name password a)
call c (starts d u) a = accounts_of (create_session c d u a)
call c (sets_role id administrator) a = set_admin id administrator a
call c (resolves token now) a = gives (resolve_session c token now a).0
call c (revokes user_id session_id) a = revoke user_id session_id a

unfoldable pub call_all : Crypto → List AuthCall → Accounts → Accounts
call_all c [] a = a
call_all c (x ∷ xs) a = call_all c xs (kept_accounts a (call c x a))

-- An administrator, once the installation is complete.
abbrev pub HasAdministrator : Accounts → Type 0
HasAdministrator a = (a.completed ≡ false) ⊎ (1 ≤ count is_administrator a.users)

-- What holds of the tables between two calls.
pub record IsSound (a : Accounts) : Type 0 where
  pub ids : Differ (λ (u : Account). u.id) a.users
  pub keys : Differ (λ (u : Account). u.username_key) a.users
  pub session_ids : Differ (λ (s : SessionRow). s.id) a.sessions
  pub tokens : Differ (λ (s : SessionRow). s.token_hash) a.sessions
  pub owners : All (λ (s : SessionRow). count (has_account s.user_id) a.users ≢ 0) a.sessions
  pub administrated : HasAdministrator a
