-- ===== src/Voting/Policy.antt =====
-- internal/app/voting.go: `votePolicy`. The settings are a function from keys to values, with
-- `none` where reading one fails.
use raspi_media_player.Base.{
  ℕ, ℤ, pos, negsuc, ◌*◌, String, Bool, false, Option, none, some, ◌&&◌, same, leb, if◌then◌else◌,
  atoi,
}

abbrev pub Settings : Type 0
Settings = String → Option String

-- Durations and times in nanoseconds.
abbrev pub seconds : ℕ → ℕ
seconds n = n * 1_000_000_000

pub record VotePolicy : Type 0 where
  pub enabled : Bool
  pub active_window : ℕ
  pub timeout : ℕ
  pub percent : ℕ

-- A number in a range, or the default.
abbrev pub within : ℕ → ℕ → ℕ → Option ℤ → ℕ
within low high default none = default
within low high default (some (negsuc n)) = default
within low high default (some (pos n)) = if leb low n && leb n high then n else default

abbrev pub parsed : Option String → Option ℤ
parsed none = none
parsed (some value) = atoi value

abbrev pub number_setting : Settings → String → ℕ → ℕ → ℕ → ℕ
number_setting settings key low high default = within low high default (parsed (settings key))

abbrev pub is_true : Option String → Bool
is_true none = false
is_true (some value) = same value "true"

unfoldable pub policy : Settings → VotePolicy
policy settings = record {
  enabled = is_true (settings "vote_enabled");
  active_window = seconds (number_setting settings "vote_active_seconds" 10 3600 60);
  timeout = seconds (number_setting settings "vote_timeout_seconds" 10 3600 90);
  percent = number_setting settings "vote_percent" 1 100 50;
}
