-- ===== src/Voting/Tests.antt =====
-- Two listeners and a vote, and the theorems on votes applied to them.
use raspi_media_player.Base.{
  suc, ◌+◌, ◌*◌, ◌≤◌, ◌<◌, ◌≡◌, refl, true, none, some, [], ◌∷◌, length, same, differ,
  if◌then◌else◌, arith,
}
use raspi_media_player.Voting.Policy.{Settings, VotePolicy, seconds}
use raspi_media_player.Voting.Manager.{VoteManager, set_vote, votes_for, required_votes}
use raspi_media_player.Voting.Thresholds.{required_votes_bounds}
use raspi_media_player.Voting.Ballots.{others, set_vote-cast}

-- Voting is on, and the percentage is out of range.
abbrev pub elections : Settings
elections key =
    if same key "vote_enabled"
    then some "true"
    else (if same key "vote_percent" then some "250" else none)

required_votes_bounds_example :
    (1 ≤ required_votes 3 50)
    × (required_votes 3 50 ≤ 3)
    × (3 * 50 ≤ 100 * required_votes 3 50)
    × (100 * required_votes 3 50 < 3 * 50 + 100)
required_votes_bounds_example = required_votes_bounds 3 50 (omega arith) (omega arith) (omega arith)

abbrev house_rules : VotePolicy
house_rules = record {
  enabled = true;
  active_window = seconds 60;
  timeout = seconds 90;
  percent = 50;
}

abbrev crowd : VoteManager
crowd = record {
  active = ("ann", seconds 10) ∷ ("bob", seconds 20) ∷ [];
  votes = ("skip:x", ("ann", seconds 10) ∷ []) ∷ ("remove:y", ("ann", seconds 15) ∷ []) ∷ [];
}

set_vote-cast_example :
    let s =
      (set_vote house_rules "skip:x" "x" "bob" true
        (seconds 30)
        (seconds 30)
        (seconds 30)
        crowd).1 in
    (s.votes
      ≡ suc (length (others (seconds 90) (seconds 30) "bob" (votes_for "skip:x" crowd.votes))))
    × (s.voted ≡ true)
set_vote-cast_example =
    set_vote-cast house_rules "skip:x" "x" "bob" (seconds 30) (seconds 30) (seconds 30) crowd refl
      (differ refl) (omega arith)
