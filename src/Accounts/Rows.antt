-- ===== src/Accounts/Rows.antt =====
-- internal/auth/store.go and its tables `users`, `sessions` and `installation_state`: users, sessions,
-- errors. A moment is a number of nanoseconds; the times of creation, which are only shown and sorted
-- by, are texts.
use raspi_media_player.Base.{ℕ, String, Bool, Option, List}

pub record Account : Type 0 where
  pub id : String
  pub username : String
  pub username_key : List ℕ
  pub password_hash : List ℕ
  pub administrator : Bool
  pub created_at : String

-- `User`, without what stays in the table.
pub record User : Type 0 where
  pub id : String
  pub username : String
  pub administrator : Bool
  pub created_at : String

pub record SessionRow : Type 0 where
  pub id : String
  pub user_id : String
  pub token_hash : String
  pub csrf_hash : String
  pub created_at : String
  pub expires_at : ℕ
  pub last_seen_at : ℕ
  pub revoked : Bool

pub record Session : Type 0 where
  pub id : String
  pub user : User
  pub created_at : String
  pub expires_at : ℕ
  pub last_seen_at : ℕ

pub record IssuedSession : Type 0 where
  pub session : Session
  pub token : String
  pub csrf_token : String

pub record Accounts : Type 0 where
  pub users : List Account
  pub sessions : List SessionRow
  pub completed : Bool

-- SHA-256, the two functions of internal/auth/password.go, and how long a session lasts. A hash of a
-- password is made from a salt, and may be unreadable.
pub record Crypto : Type 0 where
  pub digest : String → String
  pub hash_password : List ℕ → String → List ℕ
  pub verify_password : String → List ℕ → Option Bool
  pub lifetime : ℕ

-- What a call draws at random, and the moment, with its text.
pub record Draw : Type 0 where
  pub user_id : String
  pub session_id : String
  pub token : String
  pub csrf_token : String
  pub salt : List ℕ
  pub now : ℕ
  pub now_text : String

pub data AuthError : Type 0 where
  user_not_found username_taken invalid_session session_not_found : AuthError
  invalid_username invalid_password already_complete final_administrator : AuthError
  violated_constraint : AuthError

pub data Answer {ℓ} (A : Type ℓ) : Type ℓ where
  gives : A → Answer A
  denies : AuthError → Answer A
