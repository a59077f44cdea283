-- ===== src/Sources/Tests.antt =====
-- The theorems on sources, applied to a parser that knows one url.
use raspi_media_player.Base.{◌≢◌, String, false, none, some, same, if◌then◌else◌}
use raspi_media_player.Sources.Adapters.{Parser, unsupported, Playable}
use raspi_media_player.Sources.Registry.{Registry, direct_registry, classify, refused, resolve}
use raspi_media_player.Sources.Classes.{classify-supported}

abbrev station : String
station = "http://radio.local/live"

abbrev parser : Parser
parser raw =
    if same raw station
    then some (record {
      scheme = "http";
      host = "radio.local";
      hostname = "radio.local";
      has_user = false;
    })
    else none

classify-supported_example : classify (direct_registry parser) station ≢ refused unsupported
classify-supported_example = classify-supported parser station

abbrev live_stream : Playable
live_stream = record { kind = "direct"; original_url = station; playback_url = station }

abbrev asked_once : Registry
asked_once = (resolve 5 "direct" station (direct_registry parser)).0
