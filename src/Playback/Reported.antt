-- ===== src/Playback/Reported.antt =====
-- internal/player/mpv.go: what the events of the player say.
use raspi_media_player.Base.{
  String, Bool, true, false, not, ◌≡◌, refl, List, [], ◌∷◌, ◌||◌, All, same, if◌then◌else◌,
  Bool-cases, inl, inr, arith,
}
use raspi_media_player.Queue.Rows.{Status, idle, loading, playing, paused, buffering}
use raspi_media_player.Playback.Model.{PlayerState}
use raspi_media_player.Playback.Mpv.{
  Data, text, number, flag, nothing, Message, with_title, with_position, with_duration, with_volume,
  with_core_idle, with_property, shown_status, show, handle_message, handle_messages,
}

-- Neither paused nor waiting for the cache, and idle.
pub record IsIdling (s : PlayerState) : Type 0 where
  pub unpaused : s.paused ≡ false
  pub unbuffered : s.buffering ≡ false
  pub idles : s.status ≡ idle

-- A message about neither the pause nor the cache.
abbrev pub is_other : Message → Bool
is_other m = not (same m.name "pause" || same m.name "paused-for-cache")

show-IsIdling : (s : PlayerState) → IsIdling s → IsIdling (show s)
show-IsIdling s v = record {
  unpaused = v.unpaused;
  unbuffered = v.unbuffered;
  idles = rw (v.unbuffered, v.unpaused, v.idles) refl;
}

choose : (b : Bool) {s t : PlayerState} → IsIdling s → IsIdling t → IsIdling (if b then s else t)
choose true v w = v
choose false v w = w

with_title-IsIdling : (d : Data) (s : PlayerState) → IsIdling s → IsIdling (with_title d s)
with_title-IsIdling (text t) s v = record {
  unpaused = v.unpaused;
  unbuffered = v.unbuffered;
  idles = v.idles;
}
with_title-IsIdling (number n f) s v = v
with_title-IsIdling (flag b) s v = v
with_title-IsIdling nothing s v = v

with_position-IsIdling : (d : Data) (s : PlayerState) → IsIdling s → IsIdling (with_position d s)
with_position-IsIdling (number n f) s v = record {
  unpaused = v.unpaused;
  unbuffered = v.unbuffered;
  idles = v.idles;
}
with_position-IsIdling (text t) s v = v
with_position-IsIdling (flag b) s v = v
with_position-IsIdling nothing s v = v

with_duration-IsIdling : (d : Data) (s : PlayerState) → IsIdling s → IsIdling (with_duration d s)
with_duration-IsIdling (number n f) s v = record {
  unpaused = v.unpaused;
  unbuffered = v.unbuffered;
  idles = v.idles;
}
with_duration-IsIdling (text t) s v = v
with_duration-IsIdling (flag b) s v = v
with_duration-IsIdling nothing s v = v

with_volume-IsIdling : (d : Data) (s : PlayerState) → IsIdling s → IsIdling (with_volume d s)
with_volume-IsIdling (number n f) s v = record {
  unpaused = v.unpaused;
  unbuffered = v.unbuffered;
  idles = v.idles;
}
with_volume-IsIdling (text t) s v = v
with_volume-IsIdling (flag b) s v = v
with_volume-IsIdling nothing s v = v

with_core_idle-IsIdling : (d : Data) (s : PlayerState) → IsIdling s → IsIdling (with_core_idle d s)
with_core_idle-IsIdling (flag true) s v = record {
  unpaused = v.unpaused;
  unbuffered = v.unbuffered;
  idles = refl;
}
with_core_idle-IsIdling (flag false) s v = v
with_core_idle-IsIdling (number n f) s v = v
with_core_idle-IsIdling (text t) s v = v
with_core_idle-IsIdling nothing s v = v

with_property-IsIdling :
    (name : String) (d : Data) (s : PlayerState)
    → not (same name "pause" || same name "paused-for-cache") ≡ true
    → IsIdling s
    → IsIdling (with_property name d s)
with_property-IsIdling name d s other v =
    let unpause : same name "pause" ≡ false = ground arith in
    let uncache : same name "paused-for-cache" ≡ false = ground arith in
    rw (unpause, uncache)
      (choose (same name "media-title") (with_title-IsIdling d s v) (
        choose (same name "time-pos") (with_position-IsIdling d s v) (
          choose (same name "duration") (with_duration-IsIdling d s v) (
            choose (same name "volume") (with_volume-IsIdling d s v)
              (choose (same name "core-idle") (with_core_idle-IsIdling d s v) v)))))

handle_message-IsIdling :
    (m : Message) (s : PlayerState)
    → is_other m ≡ true
    → IsIdling s
    → IsIdling (handle_message m s).0
unfolding handle_message
handle_message-IsIdling m s other v = elim (Bool-cases (same m.event "end-file")) [
  | inl e ↦ rw e v
  | inr e ↦ elim (Bool-cases (same m.event "property-change")) [
    | inl f ↦
        rw (e, f)
          (show-IsIdling (with_property m.name m.data_value s)
            (with_property-IsIdling m.name m.data_value s other v))
    | inr f ↦ rw (e, f) v
  ]
]

-- Once the player counts as idle, neither paused nor waiting for the cache, it does so after any
-- messages that concern neither the pause nor the cache, those that say that it plays on included.
pub handle_messages-IsIdling :
    (messages : List Message) (s : PlayerState)
    → All (λ m. is_other m ≡ true) messages
    → IsIdling s
    → IsIdling (handle_messages messages s).0
unfolding handle_messages
handle_messages-IsIdling [] s others v = v
handle_messages-IsIdling (m ∷ messages) s others v =
    handle_messages-IsIdling messages (handle_message m s).0 others.1
      (handle_message-IsIdling m s others.0 v)

-- The status is that of the cache, else that of the pause, else idle or playing.
abbrev pub IsShown : PlayerState → Type 0
IsShown s = s.status ≡ shown_status s

show-IsShown : (s : PlayerState) → IsShown (show s)
show-IsShown s = go s.buffering s.paused s.status
  where
    shown : Bool → Bool → Status → Status
    shown b p status =
        if b then buffering else (if p then paused else elim status [ idle ↦ idle | _ ↦ playing ])

    go : (b p : Bool) (status : Status) → shown b p status ≡ shown b p (shown b p status)
    go true p status = refl
    go false true status = refl
    go false false idle = refl
    go false false loading = refl
    go false false playing = refl
    go false false paused = refl
    go false false buffering = refl
    go false false Status.stopped = refl
    go false false Status.unavailable = refl
    go false false Status.retrying = refl

handle_message-IsShown :
    (m : Message) (s : PlayerState) → IsShown s → IsShown (handle_message m s).0
unfolding handle_message
handle_message-IsShown m s v = elim (Bool-cases (same m.event "end-file")) [
  | inl e ↦ rw e v
  | inr e ↦ elim (Bool-cases (same m.event "property-change")) [
    | inl f ↦ rw (e, f) (show-IsShown (with_property m.name m.data_value s))
    | inr f ↦ rw (e, f) v
  ]
]

-- Whatever messages come, the status that the player keeps stays the one that the cache, the pause and
-- idleness give, in this order.
pub handle_messages-IsShown :
    (messages : List Message) (s : PlayerState) → IsShown s → IsShown (handle_messages messages s).0
unfolding handle_messages
handle_messages-IsShown [] s v = v
handle_messages-IsShown (m ∷ messages) s v =
    handle_messages-IsShown messages (handle_message m s).0 (handle_message-IsShown m s v)
