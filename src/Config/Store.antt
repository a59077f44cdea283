-- ===== src/Config/Store.antt =====
-- internal/settings/store.go: `Store`. AES-GCM with its encoding is an argument, and so is the nonce.
use raspi_media_player.Base.{
  String, Bool, not, Option, none, some, List, ◌&&◌, ◌||◌, map, same, if◌then◌else◌, lookup, insert,
  delete, trim, is_space,
}

pub record Definition : Type 0 where
  pub key : String
  pub label : String
  pub category : String
  pub value : String
  pub secret : Bool
  pub configured : Bool
  pub read_only : Bool

-- `seal nonce key text` is the encoded nonce and ciphertext, and `unseal key` opens it.
pub record Cipher : Type 0 where
  pub seal : String → String → String → String
  pub unseal : String → String → Option String

pub record SettingsStore : Type 0 where
  pub definitions : List (String × Definition)
  pub cipher : Option Cipher
  pub stored : List (String × String)

pub data SettingError : Type 0 where
  unknown_setting read_only_setting no_encryption unreadable_secret : SettingError

pub data Outcome : Type 0 where
  done : SettingsStore → Outcome
  fails : SettingError → Outcome

pub data Reading : Type 0 where
  reads : String → Reading
  unreadable : SettingError → Reading

abbrev pub put : String → String → SettingsStore → Outcome
put key value s = done (record s { stored = insert key value s.stored })

abbrev pub put_secret : Option Cipher → String → String → String → SettingsStore → Outcome
put_secret none nonce key value s = fails no_encryption
put_secret (some c) nonce key value s = put key (c.seal nonce key value) s

abbrev pub set_defined : Option Definition → String → String → String → SettingsStore → Outcome
set_defined none nonce key value s = fails unknown_setting
set_defined (some d) nonce key value s =
    if d.read_only
    then fails read_only_setting
    else (if d.secret && not (same value "")
        then put_secret s.cipher nonce key value s
        else put key value s)

unfoldable pub set : String → String → String → SettingsStore → Outcome
set nonce key value s = set_defined (lookup key s.definitions) nonce key (trim is_space value) s

abbrev pub opened : Option String → Reading
opened none = unreadable unreadable_secret
opened (some text) = reads text

abbrev pub unsealed : Option Cipher → String → String → Reading
unsealed none key text = unreadable no_encryption
unsealed (some c) key text = opened (c.unseal key text)

abbrev pub stored_value : Option String → Definition → String → SettingsStore → Reading
stored_value none d key s = reads d.value
stored_value (some text) d key s =
    if not d.secret || same text "" then reads text else unsealed s.cipher key text

abbrev pub defined_value : Option Definition → String → SettingsStore → Reading
defined_value none key s = unreadable unknown_setting
defined_value (some d) key s = stored_value (lookup key s.stored) d key s

unfoldable pub value : String → SettingsStore → Reading
value key s = defined_value (lookup key s.definitions) key s

abbrev pub remove_defined : Option Definition → String → SettingsStore → Outcome
remove_defined none key s = fails unknown_setting
remove_defined (some d) key s = done (record s { stored = delete key s.stored })

unfoldable pub remove : String → SettingsStore → Outcome
remove key s = remove_defined (lookup key s.definitions) key s

-- A definition as `List` shows it: a secret only says whether it is configured.
abbrev pub shown : Option String → Definition → Definition
shown (some text) d =
    if d.secret
    then record d { configured = not (same text ""); value = "" }
    else record d { value = text }
shown none d = if d.secret then record d { configured = not (same d.value ""); value = "" } else d

-- `List`, before it sorts by category and label.
unfoldable pub listed : SettingsStore → List Definition
listed s = map (λ e. shown (lookup e.0 s.stored) e.1) s.definitions
