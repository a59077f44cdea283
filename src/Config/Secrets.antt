-- ===== src/Config/Secrets.antt =====
-- internal/settings/store.go: what is set is read again, and no list shows a secret.
use raspi_media_player.Base.{
  String, Bool, true, false, not, ◌≡◌, ◌≢◌, ◌⊎◌, refl, sym, subst, Option, none, some, List, [],
  ◌∷◌, ◌&&◌, ◌||◌, map, All, same, if◌then◌else◌, lookup, insert, lookup-insert_self, same_ne, trim,
  is_space, Bool-cases, inl, inr,
}
use raspi_media_player.Config.Store.{
  read_only_setting, Definition, Cipher, SettingsStore, done, fails, reads, put, put_secret,
  set_defined, set, stored_value, value, shown, listed,
}

-- What is said of each: a secret has an empty value.
abbrev pub IsMasked : Definition → Type 0
IsMasked d = (d.secret ≡ false) ⊎ (d.value ≡ "")

shown-IsMasked : (text : Option String) (d : Definition) → IsMasked (shown text d)
shown-IsMasked none d = elim (Bool-cases d.secret) [
  | inl e ↦ inr (rw e refl)
  | inr e ↦ inl (rw e refl)
]
shown-IsMasked (some text) d = elim (Bool-cases d.secret) [
  | inl e ↦ inr (rw e refl)
  | inr e ↦ inl (rw e refl)
]

-- Nothing that is listed holds a secret, whether it is stored or a default.
pub listed-IsMasked : (s : SettingsStore) → All IsMasked (listed s)
unfolding listed
listed-IsMasked s = go s.definitions
  where
    go :
        (ds : List (String × Definition))
        → All IsMasked (map (λ e. shown (lookup e.0 s.stored) e.1) ds)
    go [] = tt
    go (e ∷ ds) = (shown-IsMasked (lookup e.0 s.stored) e.1, go ds)

-- What AES-GCM with its encoding promises: it opens what it sealed, and no sealed text is empty.
pub record IsCipher (c : Cipher) : Type 0 where
  pub opens : (nonce key text : String) → c.unseal key (c.seal nonce key text) ≡ some text
  pub fills : (nonce key text : String) → c.seal nonce key text ≢ ""

abbrev storing : String → String → SettingsStore → SettingsStore
storing key text s = record s { stored = insert key text s.stored }

put-value :
    (key text result : String) (d : Definition) (s s' : SettingsStore)
    → lookup key s.definitions ≡ some d
    → stored_value (some text) d key s ≡ reads result
    → put key text s ≡ done s'
    → value key s' ≡ reads result
unfolding value
put-value key text result d s s' defined h e =
    let same_store : storing key text s ≡ s' = cc e in
    let found : value key (storing key text s) ≡ reads result =
      rw (defined, lookup-insert_self key text s.stored) h in
    subst (λ t. value key t ≡ reads result) same_store found

open_or_empty : (secret empty : Bool) → secret && not empty ≡ false → not secret || empty ≡ true
open_or_empty true true h = refl
open_or_empty true false h = sym h
open_or_empty false empty h = refl

secret_only : (secret empty : Bool) → secret ≡ true → empty ≡ false → not secret || empty ≡ false
secret_only secret empty h k = rw (h, k) refl

left : (a b : Bool) → a && b ≡ true → a ≡ true
left true b h = refl
left false b h = h

module _ (c : Cipher) (law : IsCipher c) where
  -- What was set is read again, without the blanks around it, secret or not, where the store has a
  -- cipher that opens what it sealed.
  pub set-value :
      (nonce key text : String) (s s' : SettingsStore)
      → s.cipher ≡ some c
      → set nonce key text s ≡ done s'
      → value key s' ≡ reads (trim is_space text)
  unfolding set
  set-value nonce key text s s' has e = go (lookup key s.definitions) refl e
    where
      plain : String
      plain = trim is_space text

      sealed : String
      sealed = c.seal nonce key plain

      reads_plain :
          (d : Definition)
          → d.secret && not (same plain "") ≡ false
          → stored_value (some plain) d key s ≡ reads plain
      reads_plain d h = rw (open_or_empty d.secret (same plain "") h) refl

      reads_secret :
          (d : Definition)
          → d.secret && not (same plain "") ≡ true
          → stored_value (some sealed) d key s ≡ reads plain
      reads_secret d h =
          rw
            (
              secret_only d.secret (same sealed "") (left d.secret (not (same plain "")) h)
                  (same_ne sealed "" (law.fills nonce key plain)),
              has,
              law.opens nonce key plain,
            )
            refl

      by_secret :
          (d : Definition) (b : Bool)
          → d.secret && not (same plain "") ≡ b
          → lookup key s.definitions ≡ some d
          → (if b then put_secret s.cipher nonce key plain s else put key plain s) ≡ done s'
          → value key s' ≡ reads plain
      by_secret d true h q e =
          put-value key sealed plain d s s' q (reads_secret d h)
            (subst (λ o. put_secret o nonce key plain s ≡ done s') has e)
      by_secret d false h q e = put-value key plain plain d s s' q (reads_plain d h) e

      by_access :
          (d : Definition) (b : Bool)
          → lookup key s.definitions ≡ some d
          → (if b
              then fails read_only_setting
              else (if d.secret && not (same plain "")
                  then put_secret s.cipher nonce key plain s
                  else put key plain s))
            ≡ done s'
          → value key s' ≡ reads plain
      by_access d true q e = cc e
      by_access d false q e = by_secret d (d.secret && not (same plain "")) refl q e

      go :
          (d : Option Definition)
          → lookup key s.definitions ≡ d
          → set_defined d nonce key plain s ≡ done s'
          → value key s' ≡ reads plain
      go none q e = cc e
      go (some d) q e = by_access d d.read_only q e
