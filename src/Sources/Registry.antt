-- ===== src/Sources/Registry.antt =====
-- internal/source/source.go: `Registry`, its adapters in order, and the cache of what they resolved.
use raspi_media_player.Base.{
  ℕ, ◌+◌, String, Bool, Option, none, some, List, [], ◌∷◌, same, ltb, if◌then◌else◌, lookup, insert,
  delete, trim, is_space,
}
use Prim.Native.String as Text
use raspi_media_player.Sources.Adapters.{
  Parser, SourceError, unsupported, Playable, Answer, plays, fails, direct_match, youtube_match,
  direct_resolve, youtube_resolve, refusal,
}

pub record Adapter : Type 0 where
  pub kind : String
  pub matches : String → Bool
  pub resolves : String → Answer

pub record Cached : Type 0 where
  pub value : Playable
  pub expires_at : ℕ

-- Adapters have different kinds, so that the map of adapters is their list.
pub record Registry : Type 0 where
  pub parse : Parser
  pub order : List Adapter
  pub cache_ttl : ℕ
  pub cache : List (String × Cached)

abbrev pub direct_adapter : Parser → Adapter
direct_adapter parse = record {
  kind = "direct";
  matches = direct_match parse;
  resolves = direct_resolve parse;
}

abbrev pub youtube_adapter : Parser → Adapter
youtube_adapter parse = record {
  kind = "youtube";
  matches = youtube_match parse;
  resolves = youtube_resolve parse;
}

-- Five minutes.
abbrev pub direct_registry : Parser → Registry
direct_registry parse = record {
  parse = parse;
  order = youtube_adapter parse ∷ direct_adapter parse ∷ [];
  cache_ttl = 300_000_000_000;
  cache = [];
}

pub data Classified : Type 0 where
  of_kind : String → Classified
  refused : SourceError → Classified

abbrev pub first_match : List Adapter → String → Option String
first_match [] raw = none
first_match (a ∷ adapters) raw =
    let rest = first_match adapters raw in if a.matches raw then some a.kind else rest

abbrev pub kind_or_refusal : Option String → SourceError → Classified
kind_or_refusal (some kind) e = of_kind kind
kind_or_refusal none e = refused e

unfoldable pub classify : Registry → String → Classified
classify r raw =
    kind_or_refusal (first_match r.order raw) (refusal raw (r.parse (trim is_space raw)))

abbrev pub adapter_of : String → List Adapter → Option Adapter
adapter_of kind [] = none
adapter_of kind (a ∷ adapters) =
    let rest = adapter_of kind adapters in if same a.kind kind then some a else rest

-- The entry, if it has not expired.
abbrev pub live : ℕ → Option Cached → Option Playable
live now none = none
live now (some c) = if ltb now c.expires_at then some c.value else none

abbrev pub remembered : ℕ → String → Answer → Registry → Registry × Answer
remembered now key (fails e) r = (r, fails e)
remembered now key (plays p) r =
    if ltb 0 r.cache_ttl
    then (
      record r {
        cache = insert key (record { value = p; expires_at = now + r.cache_ttl }) r.cache;
      },
      plays p,
    )
    else (r, plays p)

abbrev pub ask : ℕ → String → String → Option Adapter → Registry → Registry × Answer
ask now key raw none r = (r, fails unsupported)
ask now key raw (some a) r = remembered now key (a.resolves raw) r

abbrev pub from_cache :
    Option Playable → ℕ → String → String → String → Registry → Registry × Answer
from_cache (some p) now key kind raw r = (r, plays p)
from_cache none now key kind raw r =
    ask now key raw (adapter_of kind r.order) (record r { cache = delete key r.cache })

abbrev pub cache_key : String → String → String
cache_key kind raw = Text.◌++◌ kind (Text.◌++◌ "\0" raw)

-- `Resolve`, by adapters that answer in time.
unfoldable pub resolve : ℕ → String → String → Registry → Registry × Answer
resolve now kind raw r =
    let key = cache_key kind raw in from_cache (live now (lookup key r.cache)) now key kind raw r
