-- ===== src/Voting/Thresholds.antt =====
-- internal/app/voting.go: the ranges of a policy, and how many votes it asks for.
use raspi_media_player.Base.{ℕ, ℤ, pos, negsuc, ◌+◌, ◌*◌, ◌≤◌, ◌<◌, ◌≡◌, Option, none, some, arith}
use raspi_media_player.Voting.Policy.{Settings, VotePolicy, seconds, within, parsed, policy}
use raspi_media_player.Voting.Manager.{required_votes}

within_bounds :
    (low high default : ℕ) (v : Option ℤ)
    → low ≤ default
    → default ≤ high
    → (low ≤ within low high default v) × (within low high default v ≤ high)
within_bounds low high default none h k = (h, k)
within_bounds low high default (some (negsuc n)) h k = (h, k)
within_bounds low high default (some (pos n)) h k = ground arith

seconds_mono : (a b : ℕ) → a ≤ b → seconds a ≤ seconds b
seconds_mono a b h = omega arith

-- The ranges that `policy` promises.
pub record IsInRange (p : VotePolicy) : Type 0 where
  pub window_low : seconds 10 ≤ p.active_window
  pub window_high : p.active_window ≤ seconds 3600
  pub timeout_low : seconds 10 ≤ p.timeout
  pub timeout_high : p.timeout ≤ seconds 3600
  pub percent_low : 1 ≤ p.percent
  pub percent_high : p.percent ≤ 100

-- Whatever the settings hold, unreadable and malformed values included, the windows lie between 10
-- seconds and an hour, and the percentage between 1 and 100.
pub policy-IsInRange : (settings : Settings) → IsInRange (policy settings)
unfolding policy
policy-IsInRange settings =
    let window =
      within_bounds 10 3600 60 (parsed (settings "vote_active_seconds")) (omega arith)
        (omega arith) in
    let timeout =
      within_bounds 10 3600 90 (parsed (settings "vote_timeout_seconds")) (omega arith)
        (omega arith) in
    let percent =
      within_bounds 1 100 50 (parsed (settings "vote_percent")) (omega arith) (omega arith) in
    record {
      window_low = seconds_mono _ _ window.0;
      window_high = seconds_mono _ _ window.1;
      timeout_low = seconds_mono _ _ timeout.0;
      timeout_high = seconds_mono _ _ timeout.1;
      percent_low = percent.0;
      percent_high = percent.1;
    }

product_le : (a p : ℕ) → p ≤ 100 → a * p ≤ a * 100
product_le a p h = grind arith

-- For at least one listener and a percentage from 1 to 100, the threshold is that percentage of the
-- listeners, rounded up, and lies between 1 and their number.
pub required_votes_bounds :
    (listeners percent : ℕ)
    → 1 ≤ listeners
    → 1 ≤ percent
    → percent ≤ 100
    → (1 ≤ required_votes listeners percent)
      × (required_votes listeners percent ≤ listeners)
      × (listeners * percent ≤ 100 * required_votes listeners percent)
      × (100 * required_votes listeners percent < listeners * percent + 100)
required_votes_bounds listeners percent h k l =
    let bound = product_le listeners percent l in
    let some_share : 1 ≤ listeners * percent = grind arith in ground (arith, bound, some_share)

-- A listener who is alone needs one vote, whatever the percentage is.
pub required_votes-alone : (percent : ℕ) → percent ≤ 100 → required_votes 1 percent ≡ 1
required_votes-alone percent h = ground arith
