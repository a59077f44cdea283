-- ===== src/Library/Privacy.antt =====
-- internal/app/library.go: what the requests of others leave of a user's library.
use raspi_media_player.Base.{
  String, Bool, not, ◌≢◌, ap, ◌∙◌, Option, none, some, List, [], ◌∷◌, ◌||◌, All, if_split, same,
  trim, is_space,
}
use raspi_media_player.Queue.Rows.{Item, Snapshot}
use raspi_media_player.Library.Rows.{Library, Result, stored, failed}
use raspi_media_player.Library.Handlers.{
  Surroundings, StationRequest, PlaylistItemRequest, LibraryRequest, lists_stations,
  lists_favorites, lists_playlists, lists_history, searches, creates_station, deletes_station,
  deletes_playlist, deletes_history, likes_item, favors_station, creates_playlist,
  adds_playlist_item, removes_playlist_item, deletes_like, LibraryReply, emptied, created, favored,
  serve_library, create_station_by, favorite_station_by, create_playlist_by, add_item_by,
  delete_like_by, like_first, title_to_like, source_kind_of, valid_stream_url,
}
use raspi_media_player.Library.Ownership.{
  KeepsFor, kept, Keeps, keeps, refuses, KeepsWith, keeps_with, refuses_it, create_station-Keeps,
  delete_station-Keeps, set_favorite-Keeps, like_track-Keeps, delete_liked_track-Keeps,
  create_playlist-Keeps, delete_playlist-Keeps, add_playlist_item-Keeps, remove_playlist_item-Keeps,
  remove_user_history-Keeps,
}

module _ (v : String) (l : Library) where
  abbrev Left : Library × LibraryReply → Type 0
  Left o = KeepsFor v l o.0

  emptied_leaves : (r : Result Library) → Keeps v l r → Left (emptied r l)
  emptied_leaves (stored l') (keeps h) = h
  emptied_leaves (failed e) refuses = kept v l

  favored_leaves : (b : Bool) (r : Result Library) → Keeps v l r → Left (favored b r l)
  favored_leaves b (stored l') (keeps h) = h
  favored_leaves b (failed e) refuses = kept v l

  created_leaves :
      {A : Type 0} (shown : A → LibraryReply) (r : Result (Library × A))
      → KeepsWith v l r
      → Left (created shown r l)
  created_leaves shown (stored (l', row)) (keeps_with h) = h
  created_leaves shown (failed e) refuses_it = kept v l

  module _ (u : String) (differ : u ≢ v) where
    like_leaves :
        (k : Surroundings) (id : String) (items : List Item) (s : Snapshot)
        → Left (like_first k id items s u l)
    like_leaves k id [] s = kept v l
    like_leaves k id (item ∷ items) s =
        if_split Left (same item.id id) _ _
          (λ e.
            created_leaves _ _
              (like_track-Keeps u v differ k.now item.kind item.url (title_to_like item s) l))
          (λ e. like_leaves k id items s)

    station_leaves :
        (k : Surroundings) (body : Option StationRequest) → Left (create_station_by k body u l)
    station_leaves k none = kept v l
    station_leaves k (some q) =
        if_split Left (valid_stream_url k.parse (trim is_space q.stream_url)) _ _
          (λ e. created_leaves _ _ (
            create_station-Keeps u v differ k.fresh_id k.now q.name (trim is_space q.stream_url) l))
          (λ e. kept v l)

    favorite_leaves : (id : String) (body : Option Bool) → Left (favorite_station_by id body u l)
    favorite_leaves id none = kept v l
    favorite_leaves id (some b) = favored_leaves b _ (set_favorite-Keeps u v differ id b l)

    playlist_leaves :
        (k : Surroundings) (body : Option String) → Left (create_playlist_by k body u l)
    playlist_leaves k none = kept v l
    playlist_leaves k (some name) =
        created_leaves _ _ (create_playlist-Keeps u v differ k.fresh_id k.now name l)

    item_leaves :
        (k : Surroundings) (playlist : String) (body : Option PlaylistItemRequest)
        → Left (add_item_by k playlist body u l)
    item_leaves k playlist none = kept v l
    item_leaves k playlist (some q) =
        if_split Left (not (same (source_kind_of q) "direct")) _ _ (λ e. kept v l)
          (λ e.
            if_split Left (valid_stream_url k.parse (trim is_space q.source_url)) _ _
              (λ valid. created_leaves _ _ (
                add_playlist_item-Keeps u v differ k.fresh_id k.now playlist q.name
                  (source_kind_of q) (trim is_space q.source_url) l))
              (λ invalid. kept v l))

    unlike_leaves : (url title : String) → Left (delete_like_by url title u l)
    unlike_leaves url title =
        if_split Left (same (trim is_space url) "" || same (trim is_space title) "") _ _
          (λ e. kept v l)
          (λ e.
            emptied_leaves _
              (delete_liked_track-Keeps u v differ (trim is_space url) (trim is_space title) l))

-- A request of anyone else, signed in or not.
serve_library-KeepsFor :
    (v : String) (k : Surroundings) (s : Snapshot) (identity : Option String) (q : LibraryRequest)
    (l : Library)
    → identity ≢ some v
    → KeepsFor v l (serve_library k s identity q l).0
unfolding serve_library
serve_library-KeepsFor v k s none q l other = nobody q
  where
    nobody : (q : LibraryRequest) → KeepsFor v l (serve_library k s none q l).0
    nobody (lists_stations query) = kept v l
    nobody _ = kept v l
serve_library-KeepsFor v k s (some u) q l other = go q
  where
    differ : u ≢ v
    differ e = other (ap some e)

    go : (q : LibraryRequest) → KeepsFor v l (serve_library k s (some u) q l).0
    go (lists_stations query) = kept v l
    go (lists_favorites query) = kept v l
    go (lists_playlists query) = kept v l
    go (lists_history query) = kept v l
    go (searches query) = kept v l
    go (creates_station body) = station_leaves v l u differ k body
    go (deletes_station id) = emptied_leaves v l _ (delete_station-Keeps u v differ id l)
    go (deletes_playlist id) = emptied_leaves v l _ (delete_playlist-Keeps u v differ id l)
    go (deletes_history id) = emptied_leaves v l _ (remove_user_history-Keeps u v differ id l)
    go (likes_item id) = like_leaves v l u differ k id s.items s
    go (favors_station id body) = favorite_leaves v l u differ id body
    go (creates_playlist body) = playlist_leaves v l u differ k body
    go (adds_playlist_item id body) = item_leaves v l u differ k id body
    go (removes_playlist_item id item) =
        emptied_leaves v l _ (remove_playlist_item-Keeps u v differ id item l)
    go (deletes_like url title) = unlike_leaves v l u differ url title

pub record Visit : Type 0 where
  pub around : Surroundings
  pub queue : Snapshot
  pub identity : Option String
  pub request : LibraryRequest

unfoldable pub serve_visits : List Visit → Library → Library
serve_visits [] l = l
serve_visits (x ∷ xs) l = serve_visits xs (serve_library x.around x.queue x.identity x.request l).0

-- Whatever requests come from others, signed in or not, a user keeps the stations and likes, the
-- playlists with their names, and the plays in the history.
pub serve_visits-KeepsFor :
    (v : String) (xs : List Visit) (l : Library)
    → All (λ x. x.identity ≢ some v) xs
    → KeepsFor v l (serve_visits xs l)
unfolding serve_visits
serve_visits-KeepsFor v [] l others = kept v l
serve_visits-KeepsFor v (x ∷ xs) l others =
    let l' = (serve_library x.around x.queue x.identity x.request l).0 in
    let now = serve_library-KeepsFor v x.around x.queue x.identity x.request l others.0 in
    let later = serve_visits-KeepsFor v xs l' others.1 in
    record {
      stations = later.stations ∙ now.stations;
      playlists = later.playlists ∙ now.playlists;
      likes = later.likes ∙ now.likes;
      plays = later.plays ∙ now.plays;
    }
