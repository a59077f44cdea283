-- ===== src/Library/Plays.antt =====
-- internal/library/store.go: the calls that write the history, in any order.
use raspi_media_player.Base.{ℕ, ◌≤◌, String, Bool, List, [], ◌∷◌, count}
use raspi_media_player.Library.Rows.{Library, Result, stored, failed}
use raspi_media_player.Library.History.{
  is_open, record_started, record_finished, record_title_changed, remove_user_history,
}

-- What the store is made with: the texts of moments, `strings.EqualFold`, and the retention.
pub record Recorder : Type 0 where
  pub shown : ℕ → String
  pub folds_equal : String → String → Bool
  pub retention : ℕ

pub data Play : Type 0 where
  starts : String → ℕ → String → String → String → String → Play
  finishes : String → ℕ → String → String → String → Play
  retitles : String → ℕ → String → String → Play
  forgets : String → String → Play

-- An error leaves the tables.
abbrev pub or_unchanged : Library → Result Library → Library
or_unchanged l (stored l') = l'
or_unchanged l (failed e) = l

abbrev pub library_of : Result (Library × Bool) → Result Library
library_of (stored r) = stored r.0
library_of (failed e) = failed e

unfoldable pub play : Recorder → Play → Library → Library
play k (starts id now item kind url user) l =
    or_unchanged l (record_started id now item kind url user l)
play k (finishes item now title outcome failure) l =
    record_finished k.shown k.retention item now title outcome failure l
play k (retitles id now item title) l =
    or_unchanged l (library_of (record_title_changed k.shown k.folds_equal id now item title l))
play k (forgets user id) l = or_unchanged l (remove_user_history user id l)

unfoldable pub play_all : Recorder → List Play → Library → Library
play_all k [] l = l
play_all k (p ∷ ps) l = play_all k ps (play k p l)

abbrev pub open_count : String → Library → ℕ
open_count q l = count (is_open q) l.history

-- A queue item has one open segment at most.
abbrev pub IsSingle : String → Library → Type 0
IsSingle q l = open_count q l ≤ 1
