-- ===== src/Library/Handlers.antt =====
-- internal/app/library.go: the handlers of the library, without the dashboard. A body is what the JSON
-- decoder answers.
use raspi_media_player.Base.{
  ℕ, String, Bool, false, not, Option, none, some, List, [], ◌∷◌, ◌&&◌, ◌||◌, keep, same, leb,
  if◌then◌else◌, trim, is_space, byte_length,
}
use raspi_media_player.Queue.Rows.{Item, Snapshot}
use raspi_media_player.Sources.Adapters.{Url, Parser, is_web}
use raspi_media_player.Library.Rows.{
  Station, Playlist, PlaylistItem, HistoryItem, LikedTrack, Library, LibraryError, not_found,
  conflict, bad_value, violated_constraint, Result, stored, failed,
}
use raspi_media_player.Library.Store.{
  create_station, delete_station, set_favorite, list_stations, like_track, delete_liked_track,
}
use raspi_media_player.Library.Playlists.{
  create_playlist, delete_playlist, add_playlist_item, remove_playlist_item, list_playlists,
}
use raspi_media_player.Library.History.{remove_user_history, list_history}

pub record StationRequest : Type 0 where
  pub name : String
  pub stream_url : String

pub record PlaylistItemRequest : Type 0 where
  pub name : String
  pub source_kind : String
  pub source_url : String

-- The parser of urls, the texts of moments and Go's `strings.ToLower`; a fresh id, and the time.
pub record Surroundings : Type 0 where
  pub parse : Parser
  pub shown : ℕ → String
  pub lower : String → String
  pub fresh_id : String
  pub now : ℕ

pub data LibraryRequest : Type 0 where
  lists_stations lists_favorites lists_playlists lists_history searches : String → LibraryRequest
  creates_station : Option StationRequest → LibraryRequest
  deletes_station deletes_playlist deletes_history likes_item : String → LibraryRequest
  favors_station : String → Option Bool → LibraryRequest
  creates_playlist : Option String → LibraryRequest
  adds_playlist_item : String → Option PlaylistItemRequest → LibraryRequest
  removes_playlist_item deletes_like : String → String → LibraryRequest

pub data LibraryReply : Type 0 where
  denied : ℕ → String → LibraryReply
  no_content : LibraryReply
  gives_stations : List (Station × Bool) → LibraryReply
  gives_playlists : List (Playlist × List PlaylistItem) → LibraryReply
  gives_history : List HistoryItem → LibraryReply
  gives_results :
      List (Station × Bool) → List (Playlist × List PlaylistItem) → List HistoryItem → LibraryReply
  gives_station : Station → LibraryReply
  gives_playlist : Playlist → LibraryReply
  gives_item : PlaylistItem → LibraryReply
  gives_like : LikedTrack → LibraryReply
  gives_favorite : Bool → LibraryReply

-- `libraryError`
abbrev pub library_error : LibraryError → LibraryReply
library_error not_found = denied 404 "library_item_not_found"
library_error conflict = denied 409 "library_item_conflict"
library_error bad_value = denied 422 "invalid_library_item"
library_error violated_constraint = denied 500 "internal_error"

-- `validateStreamURL`
abbrev pub is_stream : Option Url → Bool
is_stream none = false
is_stream (some u) = not (same u.host "") && is_web u && not u.has_user

unfoldable pub valid_stream_url : Parser → String → Bool
valid_stream_url parse text =
    not (same text "") && leb (byte_length text) 2048 && is_stream (parse text)

-- `requireIdentity`, and the handler behind it.
abbrev pub with_user :
    Option String → (String → Library → Library × LibraryReply) → Library → Library × LibraryReply
with_user none handler l = (l, denied 401 "authentication_required")
with_user (some user) handler l = handler user l

abbrev pub emptied : Result Library → Library → Library × LibraryReply
emptied (stored l') l = (l', no_content)
emptied (failed e) l = (l, library_error e)

abbrev pub created {ℓ} :
    {A : Type ℓ} → (A → LibraryReply) → Result (Library × A) → Library → Library × LibraryReply
created shown (stored (l', row)) l = (l', shown row)
created shown (failed e) l = (l, library_error e)

abbrev pub create_station_checked :
    Surroundings → StationRequest → String → Library → Library × LibraryReply
create_station_checked k q user l =
    let url = trim is_space q.stream_url in
    if valid_stream_url k.parse url
    then created gives_station (create_station k.fresh_id k.now user q.name url l) l
    else (l, denied 422 "invalid_url")

abbrev pub create_station_by :
    Surroundings → Option StationRequest → String → Library → Library × LibraryReply
create_station_by k none user l = (l, denied 400 "invalid_request")
create_station_by k (some q) user l = create_station_checked k q user l

abbrev pub favored : Bool → Result Library → Library → Library × LibraryReply
favored favorite (stored l') l = (l', gives_favorite favorite)
favored favorite (failed e) l = (l, library_error e)

abbrev pub favorite_station_by : String → Option Bool → String → Library → Library × LibraryReply
favorite_station_by id none user l = (l, denied 400 "invalid_request")
favorite_station_by id (some favorite) user l = favored favorite (set_favorite user id favorite l) l

abbrev pub create_playlist_by :
    Surroundings → Option String → String → Library → Library × LibraryReply
create_playlist_by k none user l = (l, denied 400 "invalid_request")
create_playlist_by k (some name) user l =
    created gives_playlist (create_playlist k.fresh_id k.now user name l) l

abbrev pub source_kind_of : PlaylistItemRequest → String
source_kind_of q = if same q.source_kind "" then "direct" else q.source_kind

abbrev pub add_item_checked :
    Surroundings → String → PlaylistItemRequest → String → Library → Library × LibraryReply
add_item_checked k playlist q user l =
    let url = trim is_space q.source_url in
    let kind = source_kind_of q in
    if not (same kind "direct")
    then (l, denied 422 "unsupported_source")
    else (if valid_stream_url k.parse url
        then created gives_item (add_playlist_item k.fresh_id k.now user playlist q.name kind url l)
            l
        else (l, denied 422 "invalid_url"))

abbrev pub add_item_by :
    Surroundings → String → Option PlaylistItemRequest → String → Library → Library × LibraryReply
add_item_by k playlist none user l = (l, denied 400 "invalid_request")
add_item_by k playlist (some q) user l = add_item_checked k playlist q user l

abbrev pub delete_like_by : String → String → String → Library → Library × LibraryReply
delete_like_by url title user l =
    let source = trim is_space url in
    let name = trim is_space title in
    if same source "" || same name ""
    then (l, denied 400 "invalid_request")
    else emptied (delete_liked_track user source name l) l

-- The title under which an item of the queue is liked.
abbrev pub title_to_like : Item → Snapshot → String
title_to_like item s =
    let own = trim is_space item.title in
    let playing = trim is_space s.playback.title in
    let title =
      if same item.id s.current_item_id && not (same playing "") && same item.kind "direct"
      then playing
      else own in
    if same title "" then item.url else title

abbrev pub like_first :
    Surroundings → String → List Item → Snapshot → String → Library → Library × LibraryReply
like_first k id [] s user l = (l, denied 404 "queue_item_not_found")
like_first k id (item ∷ items) s user l =
    let rest = like_first k id items s user l in
    if same item.id id
    then created gives_like (like_track k.now user item.kind item.url (title_to_like item s) l) l
    else rest

abbrev pub user_or_none : Option String → String
user_or_none none = ""
user_or_none (some user) = user

-- `Search`: the playlists are those of the user, if there is one.
abbrev pub search_results : Surroundings → Option String → String → Library → LibraryReply
search_results k identity query l =
    gives_results (list_stations k.lower (user_or_none identity) query l)
      (elim identity [ none ↦ [] | some user ↦ list_playlists k.lower user query l ])
      (list_history k.shown k.lower query 25 l)

abbrev pub only_favorites : List (Station × Bool) → List (Station × Bool)
only_favorites = keep (λ s. s.1)

-- The requests of a user, or of nobody. The snapshot is that of the queue.
unfoldable pub serve_library :
    Surroundings → Snapshot → Option String → LibraryRequest → Library → Library × LibraryReply
serve_library k s identity (lists_stations query) l =
    (l, gives_stations (list_stations k.lower (user_or_none identity) query l))
serve_library k s identity (lists_favorites query) l =
    with_user identity
      (λ user l. (l, gives_stations (only_favorites (list_stations k.lower user query l)))) l
serve_library k s identity (lists_playlists query) l =
    with_user identity (λ user l. (l, gives_playlists (list_playlists k.lower user query l))) l
serve_library k s identity (lists_history query) l =
    (l, gives_history (list_history k.shown k.lower query 100 l))
serve_library k s identity (searches query) l = (l, search_results k identity query l)
serve_library k s identity (creates_station body) l =
    with_user identity (create_station_by k body) l
serve_library k s identity (deletes_station id) l =
    with_user identity (λ user l. emptied (delete_station user id l) l) l
serve_library k s identity (deletes_playlist id) l =
    with_user identity (λ user l. emptied (delete_playlist user id l) l) l
serve_library k s identity (deletes_history id) l =
    with_user identity (λ user l. emptied (remove_user_history user id l) l) l
serve_library k s identity (likes_item id) l = with_user identity (like_first k id s.items s) l
serve_library k s identity (favors_station id body) l =
    with_user identity (favorite_station_by id body) l
serve_library k s identity (creates_playlist body) l =
    with_user identity (create_playlist_by k body) l
serve_library k s identity (adds_playlist_item id body) l =
    with_user identity (add_item_by k id body) l
serve_library k s identity (removes_playlist_item id item) l =
    with_user identity (λ user l. emptied (remove_playlist_item user id item l) l) l
serve_library k s identity (deletes_like url title) l =
    with_user identity (delete_like_by url title) l
