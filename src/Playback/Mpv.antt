-- ===== src/Playback/Mpv.antt =====
-- internal/player/mpv.go: `handleEvent` and `Load`, as far as the state that `MPV` keeps and the events
-- that it emits. Messages arrive decoded; the process, the socket and the replies are outside.
use raspi_media_player.Base.{
  ℕ, pos, ◌+◌, String, Bool, true, false, Option, none, some, List, [], ◌∷◌, ◌++◌, same, leb,
  if◌then◌else◌,
}
use raspi_media_player.Queue.Rows.{Status, idle, loading, playing, paused, buffering}
use raspi_media_player.Playback.Model.{
  PlayerState, Event, EventType, event_state, event_ended, event_failed,
}

-- The data of a property: a number has its whole part and its thousandths.
pub data Data : Type 0 where
  text : String → Data
  number : ℕ → ℕ → Data
  flag : Bool → Data
  nothing : Data

pub record Message : Type 0 where
  pub event : String
  pub name : String
  pub data_value : Data
  pub reason : String
  pub error : String

abbrev pub initial_state : PlayerState
initial_state = record {
  status = idle;
  title = "";
  position_seconds = 0;
  duration_seconds = 0;
  paused = false;
  buffering = false;
  volume = pos 100;
  error = "";
}

-- `int(value + .5)`
abbrev pub rounded : ℕ → ℕ → ℕ
rounded whole thousandths = if leb 500 thousandths then whole + 1 else whole

-- A value of another type than the property has is ignored.
abbrev pub with_title : Data → PlayerState → PlayerState
with_title (text t) s = record s { title = t }
with_title _ s = s

abbrev pub with_position : Data → PlayerState → PlayerState
with_position (number n f) s = record s { position_seconds = n }
with_position _ s = s

abbrev pub with_duration : Data → PlayerState → PlayerState
with_duration (number n f) s = record s { duration_seconds = n }
with_duration _ s = s

abbrev pub with_pause : Data → PlayerState → PlayerState
with_pause (flag b) s = record s { paused = b }
with_pause _ s = s

abbrev pub with_buffering : Data → PlayerState → PlayerState
with_buffering (flag b) s = record s { buffering = b }
with_buffering _ s = s

abbrev pub with_volume : Data → PlayerState → PlayerState
with_volume (number n f) s = record s { volume = pos (rounded n f) }
with_volume _ s = s

abbrev pub with_core_idle : Data → PlayerState → PlayerState
with_core_idle (flag true) s = record s { status = idle }
with_core_idle _ s = s

abbrev pub with_property : String → Data → PlayerState → PlayerState
with_property name d s =
    if same name "media-title"
    then with_title d s
    else (if same name "time-pos"
        then with_position d s
        else (if same name "duration"
            then with_duration d s
            else (if same name "pause"
                then with_pause d s
                else (if same name "paused-for-cache"
                    then with_buffering d s
                    else (if same name "volume"
                        then with_volume d s
                        else (if same name "core-idle" then with_core_idle d s else s))))))

abbrev pub shown_status : PlayerState → Status
shown_status s =
    if s.buffering
    then buffering
    else (if s.paused then paused else elim s.status [ idle ↦ idle | _ ↦ playing ])

abbrev pub show : PlayerState → PlayerState
show s = record s { status = shown_status s }

abbrev pub event_of : EventType → Option String → PlayerState → Event
event_of type error s = record { type = type; state = s; error = error }

abbrev pub end_file : Message → PlayerState → List Event
end_file m s =
    if same m.reason "error"
    then event_of event_failed (some m.error) s ∷ []
    else (if same m.reason "eof" then event_of event_ended none s ∷ [] else [])

unfoldable pub handle_message : Message → PlayerState → PlayerState × List Event
handle_message m s =
    if same m.event "end-file"
    then (s, end_file m s)
    else (if same m.event "property-change"
        then (let s' = show (with_property m.name m.data_value s) in
            (s', event_of event_state none s' ∷ []))
        else (s, []))

-- `Load`, before its command is sent.
unfoldable pub load : PlayerState → PlayerState × List Event
load s =
    let s' = record initial_state { status = loading; volume = s.volume } in
    (s', event_of event_state none s' ∷ [])

unfoldable pub handle_messages : List Message → PlayerState → PlayerState × List Event
handle_messages [] s = (s, [])
handle_messages (m ∷ messages) s =
    let (s', events) = handle_message m s in
    let (s'', later) = handle_messages messages s' in (s'', events ++ later)
