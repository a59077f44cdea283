-- ===== src/Voting/Manager.antt =====
-- internal/app/voting.go: `voteManager` and its methods. The times that a method reads are
-- arguments.
use raspi_media_player.Base.{
  ℕ, ◌+◌, ◌*◌, ◌/◌, String, Bool, true, false, not, Option, none, some, List, [], ◌∷◌, keep, length,
  ltb, ◌==◌, ◌||◌, same, if◌then◌else◌, lookup, insert, delete,
}
use raspi_media_player.Voting.Policy.{VotePolicy}

abbrev pub Times : Type 0
Times = List (String × ℕ)

pub record VoteManager : Type 0 where
  pub active : Times
  pub votes : List (String × Times)

pub record SkipVoteState : Type 0 where
  pub enabled : Bool
  pub current_item_id : String
  pub votes : ℕ
  pub required : ℕ
  pub active_listeners : ℕ
  pub voted : Bool
  pub expires_at : Option ℕ

abbrev pub new_vote_manager : VoteManager
new_vote_manager = record { active = []; votes = [] }

unfoldable pub touch : String → ℕ → VoteManager → VoteManager
touch id now m = record m { active = insert id now m.active }

-- `now.Sub(seen) > window` deletes an entry.
abbrev pub fresh : ℕ → ℕ → String × ℕ → Bool
fresh window now e = not (ltb (e.1 + window) now)

unfoldable pub prune : ℕ → ℕ → Times → Times
prune window now = keep (fresh window now)

abbrev pub prune_votes : ℕ → ℕ → List (String × Times) → List (String × Times)
prune_votes timeout now [] = []
prune_votes timeout now ((key, voters) ∷ votes) =
    let left = prune timeout now voters in
    let rest = prune_votes timeout now votes in
    if length left == 0 then rest else (key, left) ∷ rest

-- A nil map has no entries.
abbrev pub or_empty : Option Times → Times
or_empty none = []
or_empty (some voters) = voters

abbrev pub votes_for : String → List (String × Times) → Times
votes_for key votes = or_empty (lookup key votes)

abbrev pub at_least_one : ℕ → ℕ
at_least_one n = if ltb n 1 then 1 else n

-- `int(math.Ceil(float64(active * percent) / 100))`
abbrev pub ceil_percent : ℕ → ℕ → ℕ
ceil_percent active percent = (active * percent + 99) / 100

abbrev pub earliest : ℕ → Times → ℕ
earliest latest [] = latest
earliest latest ((id, at) ∷ votes) = earliest (if ltb at latest then at else latest) votes

abbrev pub is_present : Option ℕ → Bool
is_present none = false
is_present (some at) = true

abbrev pub has_voted : String → Times → Bool
has_voted id votes = is_present (lookup id votes)

abbrev pub expiry : ℕ → ℕ → Times → Option ℕ
expiry timeout now [] = none
expiry timeout now (v ∷ votes) = some (earliest now (v ∷ votes) + timeout)

abbrev pub idle_state : Bool → String → SkipVoteState
idle_state enabled item = record {
  enabled = enabled;
  current_item_id = item;
  votes = 0;
  required = 0;
  active_listeners = 0;
  voted = false;
  expires_at = none;
}

-- The required votes of so many active listeners.
abbrev pub required_votes : ℕ → ℕ → ℕ
required_votes active percent = at_least_one (ceil_percent active percent)

abbrev pub counted : VotePolicy → String → String → ℕ → ℕ → Times → SkipVoteState
counted p item listener now listeners voters = record {
  enabled = true;
  current_item_id = item;
  votes = length voters;
  required = required_votes (at_least_one listeners) p.percent;
  active_listeners = at_least_one listeners;
  voted = has_voted listener voters;
  expires_at = expiry p.timeout now voters;
}

abbrev pub pruned : VotePolicy → ℕ → VoteManager → VoteManager
pruned p now m = record {
  active = prune p.active_window now m.active;
  votes = prune_votes p.timeout now m.votes;
}

unfoldable pub state :
    VotePolicy → String → String → String → ℕ → VoteManager → VoteManager × SkipVoteState
unfolding prune
state p key item listener now m =
    if not p.enabled || same item "" then (m, idle_state p.enabled item) else (
      pruned p now m,
      counted p item listener now (length (pruned p now m).active)
          (prune p.timeout now (votes_for key (pruned p now m).votes)),
    )

abbrev pub recorded : Bool → String → ℕ → Times → Times
recorded true listener now voters = insert listener now voters
recorded false listener now voters = delete listener voters

unfoldable pub record_vote : String → String → Bool → ℕ → VoteManager → VoteManager
record_vote key listener vote now m = record m {
  votes = insert key (recorded vote listener now (votes_for key m.votes)) m.votes;
}

-- `setVote`: it reads the clock in `touch`, for the vote, and in `state`.
unfoldable pub set_vote :
    VotePolicy
    → String
    → String
    → String
    → Bool
    → ℕ
    → ℕ
    → ℕ
    → VoteManager
    → VoteManager × SkipVoteState
unfolding touch record_vote state
set_vote p key item listener vote seen_at voted_at now m =
    state p key item listener now
      (record_vote key listener vote voted_at (touch listener seen_at m))

unfoldable pub clear : String → VoteManager → VoteManager
clear key m = record m { votes = delete key m.votes }
