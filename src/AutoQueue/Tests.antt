-- ===== src/AutoQueue/Tests.antt =====
-- Three users, two of whom had a turn, and the theorem on turns applied to them.
use raspi_media_player.Base.{
  ℕ, String, map, leb, if◌then◌else◌, not, false, ◌≡◌, refl, List, [], ◌∷◌, keep,
}
use raspi_media_player.AutoQueue.Turns.{Turn, is_none, fair_candidates, mark_user_selected}
use raspi_media_player.AutoQueue.Ages.{TimedTurn, recorded, is_outwaited, fair_candidates-oldest}

abbrev turns : List Turn
turns =
    record { user_id = "ann"; last_selected_at = "2026-01-01T10:00:00Z" }
    ∷ record { user_id = "bob"; last_selected_at = "2026-01-01T09:00:00Z" }
    ∷ []

-- A user without a turn comes first, and after the turn the user with the older turn.
newcomer : fair_candidates turns ("ann" ∷ "bob" ∷ "eve" ∷ []) ≡ "eve" ∷ []
unfolding fair_candidates
newcomer = refl

after_newcomer :
    fair_candidates
      (mark_user_selected "eve" "2026-01-01T11:00:00Z" turns)
      ("ann" ∷ "bob" ∷ "eve" ∷ [])
    ≡ "bob" ∷ []
unfolding fair_candidates mark_user_selected
after_newcomer = refl

abbrev clock : ℕ → String
clock n = if leb n 9 then "2026-01-01T09:00:00Z" else "2026-01-01T10:00:00Z"

abbrev timed : List TimedTurn
timed = record { user = "ann"; at = 10 } ∷ record { user = "bob"; at = 9 } ∷ []

fair_candidates-oldest_example :
    (fair_candidates (map (recorded clock) timed) ("ann" ∷ "bob" ∷ [])
      ≡ keep (λ id. not (is_outwaited timed ("ann" ∷ "bob" ∷ []) id)) ("ann" ∷ "bob" ∷ []))
    × (is_none (fair_candidates (map (recorded clock) timed) ("ann" ∷ "bob" ∷ [])) ≡ false)
fair_candidates-oldest_example = fair_candidates-oldest clock timed "ann" ("bob" ∷ []) (record {
  in_order = ((refl, (refl, tt)), ((refl, (refl, tt)), tt));
  not_empty = (refl, (refl, tt));
})
