-- ===== src/Sources/Adapters.antt =====
-- internal/source/source.go: the adapters for direct streams and for YouTube. What Go's package `url`
-- makes of a text is an argument.
use raspi_media_player.Base.{
  String, Bool, true, false, not, Option, none, some, ◌&&◌, ◌||◌, same, leb, if◌then◌else◌, trim,
  is_space, byte_length,
}
use Prim.Native.String as Text

-- An url that `url.ParseRequestURI` accepts: `hostname` is in lower case and without the port.
pub record Url : Type 0 where
  pub scheme : String
  pub host : String
  pub hostname : String
  pub has_user : Bool

abbrev pub Parser : Type 0
Parser = String → Option Url

-- `strings.HasSuffix`
abbrev pub has_suffix : String → String → Bool
has_suffix suffix Text.[] = same "" suffix
has_suffix suffix (Text.◌∷◌ c s) =
    let rest = has_suffix suffix s in same (Text.◌∷◌ c s) suffix || rest

abbrev pub is_web : Url → Bool
is_web u = same u.scheme "http" || same u.scheme "https"

abbrev pub is_youtube_host : String → Bool
is_youtube_host host =
    same host "youtu.be" || same host "youtube.com" || has_suffix ".youtube.com" host

abbrev pub is_direct : String → Option Url → Bool
is_direct raw none = false
is_direct raw (some u) =
    not (same u.host "")
    && is_web u
    && not u.has_user
    && leb (byte_length raw) 2048
    && not (is_youtube_host u.hostname)

abbrev pub is_youtube : String → Option Url → Bool
is_youtube raw none = false
is_youtube raw (some u) =
    not u.has_user && is_web u && leb (byte_length raw) 2048 && is_youtube_host u.hostname

-- `DirectAdapter.Match` and `YouTubeAdapter.Match`
unfoldable pub direct_match : Parser → String → Bool
direct_match parse raw = is_direct raw (parse (trim is_space raw))

unfoldable pub youtube_match : Parser → String → Bool
youtube_match parse raw = is_youtube raw (parse (trim is_space raw))

pub data SourceError : Type 0 where
  invalid unsupported unavailable : SourceError

pub record Playable : Type 0 where
  pub kind : String
  pub original_url : String
  pub playback_url : String

pub data Answer : Type 0 where
  plays : Playable → Answer
  fails : SourceError → Answer

-- The answer of an adapter that takes the url as it is.
abbrev pub passed_on : Bool → String → String → Answer
passed_on false kind url = fails invalid
passed_on true kind url = plays (record { kind = kind; original_url = url; playback_url = url })

unfoldable pub direct_resolve : Parser → String → Answer
unfolding direct_match
direct_resolve parse raw =
    let url = trim is_space raw in passed_on (direct_match parse url) "direct" url

unfoldable pub youtube_resolve : Parser → String → Answer
unfolding youtube_match
youtube_resolve parse raw =
    let url = trim is_space raw in passed_on (youtube_match parse url) "youtube" url

-- `ErrUnsupported` for a well-formed web url of no adapter, `ErrInvalid` for anything else.
abbrev pub refusal : String → Option Url → SourceError
refusal raw none = invalid
refusal raw (some u) =
    if not (same u.host "") && is_web u && not u.has_user && leb (byte_length raw) 2048
    then unsupported
    else invalid
