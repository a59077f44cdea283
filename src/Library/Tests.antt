-- ===== src/Library/Tests.antt =====
-- A small library, and the theorems on the history applied to it.
use raspi_media_player.Base.{
  ◌≡◌, ◌≢◌, refl, ap, differ, pos, true, false, String, Option, none, some, List, [], ◌∷◌, codes,
  arith, same,
}
use raspi_media_player.Queue.Rows.{Snapshot, idle}
use raspi_media_player.Library.Rows.{Library, PlaylistItem, like, stored}
use raspi_media_player.Library.Playlists.{remove_playlist_item, delete_playlist}
use raspi_media_player.Library.History.{new_segment, record_finished}
use raspi_media_player.Library.Plays.{
  Recorder, Play, starts, finishes, retitles, forgets, play_all, open_count, IsSingle,
}
use raspi_media_player.Library.Handlers.{
  Surroundings, LibraryRequest, deletes_playlist, creates_playlist, deletes_history, denied,
  serve_library, user_or_none,
}
use raspi_media_player.Library.Ownership.{KeepsFor}
use raspi_media_player.Library.Privacy.{Visit, serve_visits, serve_visits-KeepsFor}
use raspi_media_player.Library.Single.{play_all-IsSingle, record_finished-closes}

abbrev recorder : Recorder
recorder = record { shown = λ t. "2026"; folds_equal = same; retention = 0 }

abbrev song : PlaylistItem
song = record {
  id = "i1";
  playlist_id = "p";
  name = "";
  source_kind = "direct";
  source_url = "http://host/a";
  position = pos 0;
}

abbrev shelf : Library
shelf = record {
  stations = [];
  favorites = [];
  playlists =
      record { id = "p"; owner = "a"; name = "Evening"; created_at = 0; updated_at = 0 } ∷ [];
  items =
      song
      ∷ record song { id = "i2"; position = pos 1 }
      ∷ record song { id = "i3"; position = pos 2 }
      ∷ [];
  history = new_segment "h1" 10 "q1" "direct" "http://host/a" "First" (some "a") ∷ [];
  likes = [];
}

-- Removing the first item moves the others up.
remove_first :
    remove_playlist_item "a" "p" "i1" shelf
    ≡ stored (record shelf {
      items = record song { id = "i2" } ∷ record song { id = "i3"; position = pos 1 } ∷ [];
    })
unfolding remove_playlist_item
remove_first = refl

like_infix : like (codes "%lo w_r%") (codes "Hello World") ≡ true
unfolding like
like_infix = refl

abbrev evening : List Play
evening =
    retitles "h2" 6_000_000_000 "q1" "Second"
    ∷ starts "h3" 7_000_000_000 "q1" "direct" "http://host/a" "a"
    ∷ finishes "q1" 8_000_000_000 "" "completed" ""
    ∷ forgets "a" "h1"
    ∷ []

play_all-IsSingle_example : IsSingle "q1" (play_all recorder evening shelf)
play_all-IsSingle_example = play_all-IsSingle "q1" recorder evening shelf (omega arith)

record_finished-closes_example :
    open_count "q1" (record_finished (λ t. "2026") 0 "q1" 20 "First" "completed" "" shelf) ≡ 0
record_finished-closes_example =
    record_finished-closes "q1" recorder 20 "First" "completed" "" shelf (omega arith)

abbrev desk : Surroundings
desk = record { parse = λ u. none; shown = λ t. "2026"; lower = λ t. t; fresh_id = "n1"; now = 30 }

abbrev silence : Snapshot
silence = record {
  revision = 0;
  items = [];
  current_item_id = "";
  playback = record {
    status = idle;
    title = "";
    position_seconds = 0;
    duration_seconds = 0;
    paused = false;
    buffering = false;
    volume = pos 70;
    error = "";
  };
}

abbrev visit : Option String → LibraryRequest → Visit
visit identity request = record {
  around = desk;
  queue = silence;
  identity = identity;
  request = request;
}

abbrev visits : List Visit
visits =
    visit (some "b") (creates_playlist (some "Morning"))
    ∷ visit (some "b") (deletes_playlist "p")
    ∷ visit none (deletes_history "h1")
    ∷ visit (some "c") (deletes_history "h1")
    ∷ []

-- A playlist of somebody else is not found.
foreign_playlist :
    serve_library desk silence (some "b") (deletes_playlist "p") shelf
    ≡ (shelf, denied 404 "library_item_not_found")
unfolding serve_library delete_playlist
foreign_playlist = refl

somebody_else :
    {identity : Option String} → same (user_or_none identity) "a" ≡ false → identity ≢ some "a"
somebody_else other e = differ other (ap user_or_none e)

serve_visits-KeepsFor_example : KeepsFor "a" shelf (serve_visits visits shelf)
serve_visits-KeepsFor_example =
    serve_visits-KeepsFor "a" visits shelf
      (somebody_else refl, (somebody_else refl, (somebody_else refl, (somebody_else refl, tt))))
