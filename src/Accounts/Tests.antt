-- ===== src/Accounts/Tests.antt =====
-- Two accounts, an administrator and a listener, and the theorems on accounts applied to them.
use raspi_media_player.Base.{
  ◌≡◌, ◌≢◌, refl, String, Bool, true, false, some, List, [], ◌∷◌, All, codes, same_codes, differ,
  inr, arith,
}
use raspi_media_player.Accounts.Rows.{
  Account, SessionRow, Session, Accounts, Crypto, Draw, gives, denies, invalid_session,
  final_administrator,
}
use raspi_media_player.Accounts.Names.{key_of}
use raspi_media_player.Accounts.Store.{shown_user, create_session, set_admin, new_session, issued}
use raspi_media_player.Accounts.Sessions.{resolve_session, revoke}
use raspi_media_player.Accounts.Calls.{
  AuthCall, signs_up, sets_role, resolves, revokes, call_all, IsSound,
}
use raspi_media_player.Accounts.Invariant.{call_all-IsSound}
use raspi_media_player.Accounts.Tokens.{resolve_session-revoked, create_session-resolves}

-- Digests that show what they are made of, and hashes that are the password itself.
abbrev pub plain_crypto : Crypto
plain_crypto = record {
  digest = λ s. s;
  hash_password = λ salt password. codes password;
  verify_password = λ password hash. some (same_codes (codes password) hash);
  lifetime = 1_000;
}

abbrev account : String → String → Bool → Account
account id name administrator = record {
  id = id;
  username = name;
  username_key = key_of name;
  password_hash = codes "password1";
  administrator = administrator;
  created_at = "2026-01-01T00:00:00Z";
}

abbrev pub ann : Account
ann = account "a" "Ann" true

abbrev pub bob : Account
bob = account "b" "bob" false

abbrev pub ann_session : SessionRow
ann_session = record {
  id = "s1";
  user_id = "a";
  token_hash = "token";
  csrf_hash = "csrf";
  created_at = "2026-01-01T00:00:00Z";
  expires_at = 500;
  last_seen_at = 0;
  revoked = false;
}

abbrev pub household : Accounts
household = record { users = ann ∷ bob ∷ []; sessions = ann_session ∷ []; completed = true }

abbrev pub draw : Draw
draw = record {
  user_id = "c";
  session_id = "s2";
  token = "token2";
  csrf_token = "csrf2";
  salt = [];
  now = 100;
  now_text = "2026-01-02T00:00:00Z";
}

keys_differ : bob.username_key ≢ ann.username_key
keys_differ h = absurd (ones h)
  where
    ones : bob.username_key ≡ ann.username_key → ⊥
    ones h = cc h

pub household-IsSound : IsSound household
household-IsSound = record {
  ids = ((differ refl, tt), (tt, tt));
  keys = ((keys_differ, tt), (tt, tt));
  session_ids = (tt, tt);
  tokens = (tt, tt);
  owners = (omega arith, tt);
  administrated = inr (omega arith);
}

abbrev some_calls : List AuthCall
some_calls =
    signs_up draw "Cleo" "password3"
    ∷ sets_role "b" true
    ∷ sets_role "a" false
    ∷ sets_role "b" false
    ∷ revokes "a" "s1"
    ∷ resolves "token2" 200
    ∷ []

call_all-IsSound_example : IsSound (call_all plain_crypto some_calls household)
call_all-IsSound_example = call_all-IsSound plain_crypto some_calls household household-IsSound

-- The final administrator keeps the role.
set_admin_final : set_admin "a" false household ≡ denies final_administrator
unfolding set_admin
set_admin_final = refl

abbrev without_session : Accounts
without_session = record household { sessions = record ann_session { revoked = true } ∷ [] }

revoked_once : revoke "a" "s1" household ≡ gives without_session
unfolding revoke
revoked_once = refl

resolve_session-revoked_example :
    (resolve_session plain_crypto "token" 300 (call_all plain_crypto some_calls without_session)).1
    ≡ denies invalid_session
resolve_session-revoked_example =
    resolve_session-revoked plain_crypto "token" ann_session household without_session some_calls
      300 refl revoked_once

abbrev two_sessions : Accounts
two_sessions = record household {
  sessions = ann_session ∷ new_session plain_crypto draw (shown_user bob) ∷ [];
}

started_once :
    create_session plain_crypto draw (shown_user bob) household
    ≡ gives (
      two_sessions,
      issued draw (shown_user bob) (new_session plain_crypto draw (shown_user bob)),
    )
unfolding create_session
started_once = refl

abbrev other_calls : List AuthCall
other_calls = sets_role "b" true ∷ revokes "a" "s1" ∷ resolves "token2" 200 ∷ []

others_only : All (λ x. x ≢ revokes "b" "s2") other_calls
others_only = ((λ e. cc e), ((λ e. absurd (differ refl (user_of e))), ((λ e. cc e), tt)))
  where
    user_of : revokes "a" "s1" ≡ revokes "b" "s2" → ◌≡◌ {A = String} "a" "b"
    user_of e = cc e

create_session-resolves_example :
    (t : Session) × ((resolve_session plain_crypto "token2" 900
        (call_all plain_crypto other_calls two_sessions)).1
      ≡ gives t)
    × (t.id ≡ "s2")
    × (t.user.id ≡ "b")
create_session-resolves_example =
    create_session-resolves plain_crypto draw (shown_user bob) household two_sessions
      (issued draw (shown_user bob) (new_session plain_crypto draw (shown_user bob))) other_calls
      900 household-IsSound started_once (differ refl) others_only (omega arith)
