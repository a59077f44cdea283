-- ===== src/Config/Tests.antt =====
-- A store with a secret and a cipher that only marks what it seals.
use raspi_media_player.Base.{
  String, Bool, true, false, ◌≡◌, refl, Option, none, some, [], ◌∷◌, All, trim, is_space,
}
use Prim.Native.String as Text
use raspi_media_player.Config.Store.{
  Definition, Cipher, SettingsStore, Outcome, done, set, value, reads, listed,
}
use raspi_media_player.Config.Secrets.{IsMasked, listed-IsMasked, IsCipher, set-value}

abbrev definition : String → Bool → Definition
definition key secret = record {
  key = key;
  label = key;
  category = "General";
  value = "";
  secret = secret;
  configured = false;
  read_only = false;
}

abbrev marked : String → String → String → String
marked nonce key text = Text.◌∷◌ "!" text

abbrev unmarked : String → String → Option String
unmarked key Text.[] = none
unmarked key (Text.◌∷◌ c text) = some text

abbrev marking : Cipher
marking = record { seal = marked; unseal = unmarked }

marking-IsCipher : IsCipher marking
marking-IsCipher = record { opens = λ nonce key text. refl; fills = λ nonce key text e. cc e }

abbrev store : SettingsStore
store = record {
  definitions =
      ("lastfm_key", definition "lastfm_key" true)
      ∷ ("vote_enabled", definition "vote_enabled" false)
      ∷ [];
  cipher = some marking;
  stored = ("lastfm_key", "!old") ∷ [];
}

listed-IsMasked_example : All IsMasked (listed store)
listed-IsMasked_example = listed-IsMasked store

abbrev after : Outcome → SettingsStore
after (done s) = s
after _ = store

set-value_example :
    value "lastfm_key" (after (set "n" "lastfm_key" " abc " store)) ≡ reads (trim is_space " abc ")
unfolding set
set-value_example =
    set-value marking marking-IsCipher "n" "lastfm_key" " abc " store
      (after (set "n" "lastfm_key" " abc " store)) refl refl
