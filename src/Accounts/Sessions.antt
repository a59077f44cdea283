-- ===== src/Accounts/Sessions.antt =====
-- internal/auth/store.go: `ResolveSession`, `VerifyCSRF`, `Revoke` and `ListSessions`.
use raspi_media_player.Base.{
  ℕ, ◌*◌, ◌/◌, String, Bool, true, false, not, Option, none, some, List, [], ◌∷◌, ◌&&◌, map, count,
  keep, first, same, ◌==◌, ltb, if◌then◌else◌, comes_before,
}
use raspi_media_player.Accounts.Rows.{
  Account, User, SessionRow, Session, Accounts, Crypto, invalid_session, session_not_found, Answer,
  gives, denies,
}
use raspi_media_player.Accounts.Store.{
  ◌>>◌, require, has_account, has_session, has_token, shown_user,
}

-- `JOIN users u ON u.id = s.user_id`
abbrev pub with_user : SessionRow → Option Account → Option (SessionRow × User)
with_user s none = none
with_user s (some u) = some (s, shown_user u)

abbrev pub joined : Option SessionRow → List Account → Option (SessionRow × User)
joined none users = none
joined (some s) users = with_user s (first (has_account s.user_id) users)

abbrev pub shown_session : SessionRow → User → Session
shown_session s u = record {
  id = s.id;
  user = u;
  created_at = s.created_at;
  expires_at = s.expires_at;
  last_seen_at = s.last_seen_at;
}

-- `CURRENT_TIMESTAMP` has whole seconds.
abbrev pub whole_second : ℕ → ℕ
whole_second now = now / 1_000_000_000 * 1_000_000_000

abbrev pub seen : String → ℕ → SessionRow → SessionRow
seen id now s = if has_session id s then record s { last_seen_at = whole_second now } else s

abbrev pub resolved : Option (SessionRow × User) → ℕ → Accounts → Accounts × Answer Session
resolved none now a = (a, denies invalid_session)
resolved (some (s, u)) now a =
    if s.revoked
    then (a, denies invalid_session)
    else (if ltb s.expires_at now
        then (a, denies invalid_session)
        else (record a { sessions = map (seen s.id now) a.sessions }, gives (shown_session s u)))

unfoldable pub resolve_session : Crypto → String → ℕ → Accounts → Accounts × Answer Session
resolve_session c token now a =
    if same token ""
    then (a, denies invalid_session)
    else resolved (joined (first (has_token (c.digest token)) a.sessions) a.users) now a

abbrev pub csrf_matches : String → Option SessionRow → Bool
csrf_matches hash none = false
csrf_matches hash (some s) = same s.csrf_hash hash

abbrev pub is_open : String → SessionRow → Bool
is_open id s = has_session id s && not s.revoked

unfoldable pub verify_csrf : Crypto → String → String → Accounts → Bool
verify_csrf c session_id csrf a =
    not (same csrf "") && csrf_matches (c.digest csrf) (first (is_open session_id) a.sessions)

abbrev pub is_own_open : String → String → SessionRow → Bool
is_own_open user_id id s = has_session id s && same s.user_id user_id && not s.revoked

abbrev pub revoke_row : (SessionRow → Bool) → SessionRow → SessionRow
revoke_row test s = if test s then record s { revoked = true } else s

unfoldable pub revoke : String → String → Accounts → Answer Accounts
revoke user_id session_id a = do
  require (not (count (is_own_open user_id session_id) a.sessions == 0)) session_not_found
  gives (record a { sessions = map (revoke_row (is_own_open user_id session_id)) a.sessions })

-- `datetime(expires_at) > CURRENT_TIMESTAMP` compares whole seconds.
abbrev pub is_listed : String → ℕ → SessionRow → Bool
is_listed user_id now s =
    same s.user_id user_id
    && not s.revoked
    && ltb (now / 1_000_000_000) (s.expires_at / 1_000_000_000)

abbrev pub insert_latest : SessionRow → List SessionRow → List SessionRow
insert_latest s [] = s ∷ []
insert_latest s (t ∷ sessions) =
    let rest = insert_latest s sessions in
    if comes_before s.created_at t.created_at then t ∷ rest else s ∷ t ∷ sessions

abbrev pub latest_first : List SessionRow → List SessionRow
latest_first [] = []
latest_first (s ∷ sessions) = insert_latest s (latest_first sessions)

-- The rows that `ListSessions` shows, without the user, which it leaves empty.
unfoldable pub list_sessions : String → ℕ → Accounts → List SessionRow
list_sessions user_id now a = latest_first (keep (is_listed user_id now) a.sessions)
