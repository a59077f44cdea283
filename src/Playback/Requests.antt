-- ===== src/Playback/Requests.antt =====
-- internal/app/playback.go: the handlers of the commands. The controller is absent where playback is
-- not enabled; a body is what the JSON decoder answers, and seconds are whole numbers.
use raspi_media_player.Base.{
  ℕ, ℤ, pos, negsuc, Bool, true, false, ◌≡◌, refl, Option, none, some, [], ◌∷◌, ◌++◌, ◌||◌,
  if◌then◌else◌, ltb_ℤ, Bool-cases, inl, inr, ◌⊎◌, arith,
}
use raspi_media_player.Queue.Rows.{Snapshot}
use raspi_media_player.Queue.Store.{snapshot, with_state}
use raspi_media_player.Queue.Playing.{set_volume, volume_allowed}
use raspi_media_player.Playback.Model.{
  PlayerError, player_unavailable, player_failed, System, volumes,
}
use raspi_media_player.Playback.Commands.{
  Outcome, done, player_error, queue_error, pause, resume, stop, seek, change_volume,
}
use raspi_media_player.Playback.Steps.{
  Move, pauses_playback, resumes, stops_playback, seeks_to, changes_volume, step, run_moves,
  IsConsistent,
}
use raspi_media_player.Playback.Reachable.{run_moves-IsConsistent}

pub data Reply : Type 0 where
  refused : ℕ → Reply
  shows : Snapshot → Reply

-- The reply after a command.
abbrev pub replied : Outcome → System → Reply
replied done s = shows (snapshot s.db)
replied (player_error player_unavailable) s = refused 503
replied (player_error (player_failed text)) s = refused 500
replied (queue_error e) s = refused 500

abbrev pub answered_by : System × Outcome → Option System × Reply
answered_by (s, outcome) = (some s, replied outcome s)

abbrev pub playback_command : (System → System × Outcome) → Option System → Option System × Reply
playback_command operation none = (none, refused 503)
playback_command operation (some s) = answered_by (operation s)

unfoldable pub pause_playback : Option PlayerError → Option System → Option System × Reply
pause_playback answer = playback_command (pause answer)

unfoldable pub resume_playback : Option PlayerError → Option System → Option System × Reply
resume_playback answer = playback_command (resume answer)

unfoldable pub stop_playback : Option PlayerError → Option System → Option System × Reply
stop_playback answer = playback_command (stop answer)

unfoldable pub seek_playback : Option ℤ → Option PlayerError → Option System → Option System × Reply
seek_playback none answer s = (s, refused 400)
seek_playback (some (negsuc n)) answer s = (s, refused 422)
seek_playback (some (pos n)) answer s = playback_command (seek n answer) s

abbrev pub out_of_range : ℤ → Bool
out_of_range volume = ltb_ℤ volume (pos 0) || ltb_ℤ (pos 100) volume

unfoldable pub set_playback_volume :
    Option ℤ → Option PlayerError → Option System → Option System × Reply
set_playback_volume none answer s = (s, refused 400)
set_playback_volume (some volume) answer s =
    if out_of_range volume
    then (s, refused 422)
    else playback_command (change_volume volume answer) s

-- The request for a volume that the player takes: out of range it is refused and nothing changes; in
-- range the controller and the queue have it, and the reply shows it.
pub set_playback_volume-decides :
    (volume : ℤ) (s : System)
    → ((out_of_range volume ≡ true)
        × (set_playback_volume (some volume) none (some s) ≡ (some s, refused 422)))
      ⊎ ((out_of_range volume ≡ false)
          × ((t : System) × ((set_playback_volume (some volume) none (some s)
                  ≡ (some t, shows (snapshot t.db)))
                × ((t.controller.desired_volume ≡ volume)
                    × ((snapshot t.db).playback.volume ≡ volume)))))
unfolding set_playback_volume change_volume set_volume snapshot
set_playback_volume-decides volume s = elim (Bool-cases (out_of_range volume)) [
  | inl e ↦ inl (e, rw e refl)
  | inr e ↦ inr (e, (louder, (rw (e, allowed volume e) refl, (refl, refl))))
]
  where
    allowed : (v : ℤ) → out_of_range v ≡ false → volume_allowed v ≡ true
    allowed (pos n) h = ground arith
    allowed (negsuc n) h = cc h

    louder : System
    louder = record s {
      controller = record s.controller { desired_volume = volume };
      db =
          with_state s.db
            (record s.db.state { playback = record s.db.state.playback { volume = volume } });
      effects = s.effects ++ volumes volume ∷ [];
    }

-- The requests.
pub data Command : Type 0 where
  asks_pause asks_resume asks_stop : Command
  asks_seek asks_volume : Option ℤ → Command

unfoldable pub command : Command → Option PlayerError → Option System → Option System × Reply
unfolding pause_playback resume_playback stop_playback seek_playback set_playback_volume
command asks_pause answer s = pause_playback answer s
command asks_resume answer s = resume_playback answer s
command asks_stop answer s = stop_playback answer s
command (asks_seek body) answer s = seek_playback body answer s
command (asks_volume body) answer s = set_playback_volume body answer s

abbrev pub IsConsistentIfPresent : Option System → Type 0
IsConsistentIfPresent none = Unit
IsConsistentIfPresent (some s) = IsConsistent s

move-IsConsistent : (m : Move) (s : System) → IsConsistent s → IsConsistent (step m s)
unfolding run_moves
move-IsConsistent m s v = run_moves-IsConsistent (m ∷ []) s v

-- Whatever a request asks, and whatever the player answers, what it leaves of a consistent controller
-- is consistent.
pub command-IsConsistent :
    (c : Command) (answer : Option PlayerError) (s : System)
    → IsConsistent s
    → IsConsistentIfPresent (command c answer (some s)).0
unfolding command step
command-IsConsistent asks_pause answer s v = move-IsConsistent (pauses_playback answer) s v
command-IsConsistent asks_resume answer s v = move-IsConsistent (resumes answer) s v
command-IsConsistent asks_stop answer s v = move-IsConsistent (stops_playback answer) s v
command-IsConsistent (asks_seek none) answer s v = v
command-IsConsistent (asks_seek (some (negsuc n))) answer s v = v
command-IsConsistent (asks_seek (some (pos n))) answer s v =
    move-IsConsistent (seeks_to n answer) s v
command-IsConsistent (asks_volume none) answer s v = v
command-IsConsistent (asks_volume (some volume)) answer s v =
    either (out_of_range volume) (some s, refused 422)
      (playback_command (change_volume volume answer) (some s)) v
      (move-IsConsistent (changes_volume volume answer) s v)
  where
    either :
        (b : Bool) (x y : Option System × Reply)
        → IsConsistentIfPresent x.0
        → IsConsistentIfPresent y.0
        → IsConsistentIfPresent (if b then x else y).0
    either true x y v w = v
    either false x y v w = w
