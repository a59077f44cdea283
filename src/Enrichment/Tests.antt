-- ===== src/Enrichment/Tests.antt =====
-- Titles, and the theorems on `ParseTitle` applied to them.
use raspi_media_player.Base.{
  ℕ, String, Bool, ◌≡◌, ◌⊎◌, refl, ◌==◌, trim, trim_right, is_space, arith,
}
use raspi_media_player.Enrichment.Titles.{
  separators, next_title, join_words, fields, strip_suffixes, cleaned_title, parse_title,
}
use raspi_media_player.Enrichment.Cleaning.{cleaned_title-settled, trim_right-Shrinks}
use raspi_media_player.Enrichment.Splitting.{IsSplit, parse_title-splits}

abbrev is_mark : ℕ → Bool
is_mark c = c == b'!'

-- Takes marks of the end, in place of the pattern.
abbrev unmarked : String → String
unmarked = trim_right is_mark

abbrev noisy : String
noisy = " The  Band - A Song ! !!"

noisy_hint :
    parse_title unmarked noisy
    ≡ record { artist = "The Band"; title = "A Song"; raw_title = "The  Band - A Song ! !!" }
unfolding parse_title cleaned_title
noisy_hint = refl

-- Without an artist in front of the dash the title stays whole.
dashed_hint :
    parse_title unmarked " - A Song"
    ≡ record { artist = ""; title = "- A Song"; raw_title = "- A Song" }
unfolding parse_title cleaned_title
dashed_hint = refl

cleaned_title-settled_example :
    (next_title unmarked (cleaned_title unmarked noisy) ≡ cleaned_title unmarked noisy)
    × (strip_suffixes 100 unmarked (trim is_space (join_words (fields noisy)))
        ≡ cleaned_title unmarked noisy)
cleaned_title-settled_example =
    cleaned_title-settled unmarked (trim_right-Shrinks is_mark) noisy 100 (omega arith)

parse_title-splits_example :
    (((parse_title unmarked noisy).artist ≡ "")
      × ((parse_title unmarked noisy).title ≡ cleaned_title unmarked noisy))
    ⊎ IsSplit separators
        (cleaned_title unmarked noisy)
        (parse_title unmarked noisy).artist
        (parse_title unmarked noisy).title
parse_title-splits_example = parse_title-splits unmarked noisy
