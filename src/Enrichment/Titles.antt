-- ===== src/Enrichment/Titles.antt =====
-- `ParseTitle` of internal/enrichment/enrichment.go. What `suffixPattern.ReplaceAllString` makes of a
-- text is an argument.
use Prim.Native.Char.{Char, code}
use Prim.Native.String as Text
use raspi_media_player.Base.{
  ℕ, zero, suc, String, not, Option, none, some, List, [], ◌∷◌, ◌&&◌, same, if◌then◌else◌, ◌==◌,
  trim, is_space,
}

pub record TrackHint : Type 0 where
  pub artist : String
  pub title : String
  pub raw_title : String

-- Code points of a text.
abbrev pub size : String → ℕ
size String.[] = 0
size (String.◌∷◌ c s) = suc (size s)

-- A word in front of other words, unless it is empty.
abbrev pub with_word : String → List String → List String
with_word String.[] words = words
with_word (String.◌∷◌ c s) words = String.◌∷◌ c s ∷ words

-- The word that a text begins with, and the words behind it.
abbrev pub split_word : String → String × List String
split_word String.[] = ("", [])
split_word (String.◌∷◌ c s) =
    let (word, words) = split_word s in
    if is_space (code c) then ("", with_word word words) else (String.◌∷◌ c word, words)

-- `strings.Fields`
abbrev pub fields : String → List String
fields s = let (word, words) = split_word s in with_word word words

-- `strings.Join(…, " ")`
abbrev pub join_words : List String → String
join_words [] = ""
join_words (word ∷ []) = word
join_words (word ∷ words) = Text.◌++◌ word (Text.◌++◌ " " (join_words words))

-- One round of the loop.
abbrev pub next_title : (String → String) → String → String
next_title replace s = trim is_space (replace s)

-- The loop: it ends where a round changes nothing.
abbrev pub strip_suffixes : ℕ → (String → String) → String → String
strip_suffixes zero replace s = s
strip_suffixes (suc fuel) replace s =
    let next = next_title replace s in
    let rest = strip_suffixes fuel replace next in if same next s then s else rest

unfoldable pub cleaned_title : (String → String) → String → String
cleaned_title replace raw =
    let text = trim is_space (join_words (fields raw)) in strip_suffixes (size text) replace text

-- What follows a prefix.
abbrev pub after_prefix : String → String → Option String
after_prefix String.[] s = some s
after_prefix (String.◌∷◌ p ps) String.[] = none
after_prefix (String.◌∷◌ p ps) (String.◌∷◌ c s) =
    let rest = after_prefix ps s in if code p == code c then rest else none

abbrev pub cut_here : Char → Option String → Option (String × String) → Option (String × String)
cut_here c (some t) later = some ("", t)
cut_here c none none = none
cut_here c none (some (before, t)) = some (String.◌∷◌ c before, t)

-- `strings.Cut` at a separator that is not empty.
abbrev pub cut : String → String → Option (String × String)
cut separator String.[] = none
cut separator (String.◌∷◌ c s) =
    cut_here c (after_prefix separator (String.◌∷◌ c s)) (cut separator s)

-- A separator with something on both of its sides.
abbrev pub sides : Option (String × String) → Option (String × String)
sides none = none
sides (some (before, t)) =
    let artist = trim is_space before in
    let title = trim is_space t in
    if not (same artist "") && not (same title "") then some (artist, title) else none

abbrev pub separators : List String
separators = " - " ∷ " – " ∷ " — " ∷ []

abbrev pub first_split : List String → String → Option (String × String)
first_split [] s = none
first_split (separator ∷ rest) s =
    let later = first_split rest s in
    elim (sides (cut separator s)) [ some pair ↦ some pair | none ↦ later ]

abbrev pub hint_of : Option (String × String) → String → String → TrackHint
hint_of none s raw = record { artist = ""; title = s; raw_title = trim is_space raw }
hint_of (some (artist, title)) s raw = record {
  artist = artist;
  title = title;
  raw_title = trim is_space raw;
}

unfoldable pub parse_title : (String → String) → String → TrackHint
parse_title replace raw =
    let s = cleaned_title replace raw in hint_of (first_split separators s) s raw
