-- ===== src/Accounts/Names.antt =====
-- internal/auth/store.go: `NormalizeUsername` and `ValidatePassword`.
use raspi_media_player.Base.{
  ℕ, String, Bool, true, Option, none, some, List, [], ◌∷◌, ◌&&◌, ◌||◌, leb, ltb, ◌==◌,
  if◌then◌else◌, trim, is_space, byte_length, lower_code, codes, map,
}

abbrev pub is_name_code : ℕ → Bool
is_name_code c =
    leb b'a' c && leb c b'z'
    || leb b'A' c && leb c b'Z'
    || leb b'0' c && leb c b'9'
    || c == b'_'
    || c == b'-'

abbrev pub all_codes : (ℕ → Bool) → List ℕ → Bool
all_codes test [] = true
all_codes test (c ∷ cs) = test c && all_codes test cs

-- The key of a name of ASCII letters: its code points in lower case.
abbrev pub key_of : String → List ℕ
key_of name = map lower_code (codes name)

abbrev pub checked_name : String → Option String
checked_name name =
    if ltb (byte_length name) 2 || ltb 32 (byte_length name)
    then none
    else (if all_codes is_name_code (codes name) then some name else none)

-- `NormalizeUsername`: the name as it is shown.
unfoldable pub normalize_username : String → Option String
normalize_username value = checked_name (trim is_space value)

unfoldable pub valid_password : String → Bool
valid_password value = leb 8 (byte_length value) && leb (byte_length value) 256
