-- ===== src/Accounts/Store.antt =====
-- internal/auth/store.go: users and administrators. A transaction is a function of the tables, and an
-- error discards what it wrote.
use raspi_media_player.Base.{
  ℕ, ◌+◌, String, Bool, true, false, not, Option, none, some, List, [], ◌∷◌, ◌++◌, ◌&&◌, map, count,
  first, same, ◌==◌, leb, if◌then◌else◌, same_codes, text_ltb,
}
use raspi_media_player.Accounts.Rows.{
  Account, User, SessionRow, IssuedSession, Accounts, Crypto, Draw, AuthError, user_not_found,
  username_taken, invalid_username, invalid_password, already_complete, final_administrator,
  violated_constraint, Answer, gives, denies,
}
use raspi_media_player.Accounts.Names.{key_of, normalize_username, valid_password}

infixl 5 ◌>>=◌ ◌>>◌
abbrev pub ◌>>=◌ {ℓ κ} : {S : Type ℓ} {T : Type κ} → Answer S → (S → Answer T) → Answer T
denies problem >>= continue = denies problem
gives result >>= continue = continue result

abbrev pub ◌>>◌ {κ} : {T : Type κ} → Answer (Unit {0}) → Answer T → Answer T
check >> continue = check >>= λ passed. continue

abbrev pub require : Bool → AuthError → Answer (Unit {0})
require true problem = gives tt
require false problem = denies problem

abbrev pub has_account : String → Account → Bool
has_account id u = same u.id id

abbrev pub has_key : List ℕ → Account → Bool
has_key key u = same_codes u.username_key key

abbrev pub shown_user : Account → User
shown_user u = record {
  id = u.id;
  username = u.username;
  administrator = u.administrator;
  created_at = u.created_at;
}

abbrev pub or_not_found : Option Account → Answer (User × List ℕ)
or_not_found none = denies user_not_found
or_not_found (some u) = gives (shown_user u, u.password_hash)

abbrev pub named : Option String → Answer String
named none = denies invalid_username
named (some name) = gives name

-- The user of a name, with the hash of the password.
unfoldable pub find_user : String → Accounts → Answer (User × List ℕ)
find_user name a = do
  display ← named (normalize_username name)
  or_not_found (first (has_key (key_of display)) a.users)

-- `INSERT INTO users`: its ids and its keys are unique. Any violation reads as a taken name.
unfoldable pub insert_user : Account → Accounts → Answer Accounts
insert_user u a = do
  require (count (has_account u.id) a.users == 0) username_taken
  require (count (has_key u.username_key) a.users == 0) username_taken
  gives (record a { users = a.users ++ u ∷ [] })

abbrev pub has_session : String → SessionRow → Bool
has_session id s = same s.id id

abbrev pub has_token : String → SessionRow → Bool
has_token hash s = same s.token_hash hash

abbrev pub new_session : Crypto → Draw → User → SessionRow
new_session c d u = record {
  id = d.session_id;
  user_id = u.id;
  token_hash = c.digest d.token;
  csrf_hash = c.digest d.csrf_token;
  created_at = d.now_text;
  expires_at = d.now + c.lifetime;
  last_seen_at = d.now;
  revoked = false;
}

abbrev pub issued : Draw → User → SessionRow → IssuedSession
issued d u s = record {
  session = record {
    id = s.id;
    user = u;
    created_at = s.created_at;
    expires_at = s.expires_at;
    last_seen_at = s.last_seen_at;
  };
  token = d.token;
  csrf_token = d.csrf_token;
}

-- `INSERT INTO sessions`: a known user, a fresh id and a fresh token.
unfoldable pub create_session : Crypto → Draw → User → Accounts → Answer (Accounts × IssuedSession)
create_session c d u a = do
  require (not (count (has_account u.id) a.users == 0)) violated_constraint
  require (count (has_session d.session_id) a.sessions == 0) violated_constraint
  require (count (has_token (c.digest d.token)) a.sessions == 0) violated_constraint
  let row = new_session c d u
  gives (record a { sessions = a.sessions ++ row ∷ [] }, issued d u row)

abbrev pub new_account : Crypto → Draw → Bool → String → String → Account
new_account c d administrator display password = record {
  id = d.user_id;
  username = display;
  username_key = key_of display;
  password_hash = c.hash_password d.salt password;
  administrator = administrator;
  created_at = d.now_text;
}

-- The first administrator, once.
unfoldable pub create_initial_admin_and_session :
    Crypto → Draw → String → String → Accounts → Answer (Accounts × IssuedSession)
create_initial_admin_and_session c d name password a = do
  display ← named (normalize_username name)
  require (valid_password password) invalid_password
  require (not a.completed) already_complete
  let user = new_account c d true display password
  with_user ← insert_user user a
  started ← create_session c d (shown_user user) with_user
  gives (record (started.0) { completed = true }, started.1)

unfoldable pub create_user_and_session :
    Crypto → Draw → String → String → Accounts → Answer (Accounts × IssuedSession)
create_user_and_session c d name password a = do
  display ← named (normalize_username name)
  require (valid_password password) invalid_password
  let user = new_account c d false display password
  with_user ← insert_user user a
  create_session c d (shown_user user) with_user

abbrev pub is_administrator : Account → Bool
is_administrator u = u.administrator

abbrev pub with_role : String → Bool → Account → Account
with_role id administrator u =
    if has_account id u then record u { administrator = administrator } else u

abbrev pub found_account : Option Account → Answer Account
found_account none = denies user_not_found
found_account (some u) = gives u

-- What `SetAdmin` looks at before it takes the role away.
abbrev pub may_lose : String → List Account → Answer (Unit {0})
may_lose id users = do
  target ← found_account (first (has_account id) users)
  require (not (target.administrator && leb (count is_administrator users) 1)) final_administrator

unfoldable pub set_admin : String → Bool → Accounts → Answer Accounts
set_admin id administrator a = do
  if administrator then gives tt else may_lose id a.users
  require (not (count (has_account id) a.users == 0)) user_not_found
  gives (record a { users = map (with_role id administrator) a.users })

abbrev pub insert_by_key : Account → List Account → List Account
insert_by_key u [] = u ∷ []
insert_by_key u (v ∷ users) =
    let rest = insert_by_key u users in
    if text_ltb v.username_key u.username_key then v ∷ rest else u ∷ v ∷ users

abbrev pub by_key : List Account → List Account
by_key [] = []
by_key (u ∷ users) = insert_by_key u (by_key users)

unfoldable pub list_users : Accounts → List User
list_users a = map shown_user (by_key a.users)
