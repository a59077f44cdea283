-- ===== src/Library/Store.antt =====
-- internal/library/store.go: stations, favorites and likes.
use raspi_media_player.Base.{
  ℕ, zero, suc, String, Bool, true, false, not, Option, none, some, List, [], ◌∷◌, ◌++◌, ◌&&◌, ◌||◌,
  map, count, keep, same, same_codes, text_ltb, ◌==◌, ltb, leb, if◌then◌else◌, byte_length, trim,
  is_space, comes_before,
}
use raspi_media_player.Library.Rows.{
  Station, Favorite, LikedTrack, Library, not_found, conflict, bad_value, Result, stored, ◌>>◌,
  demand, lowered, like, pattern_of,
}

abbrev pub is_owned_by : String → Option String → Bool
is_owned_by user none = false
is_owned_by user (some owner) = same owner user

abbrev pub is_household : Option String → Bool
is_household none = true
is_household (some owner) = false

abbrev pub is_station : String → Station → Bool
is_station id s = same s.id id

abbrev pub has_station_name : String → String → Station → Bool
has_station_name user name s =
    is_owned_by user s.owner && same_codes (lowered s.name) (lowered name)

abbrev pub is_short : ℕ → String → Bool
is_short most text = not (same text "") && leb (byte_length text) most

-- `CreateStation`: the id is fresh, and the name new to its owner, whatever its case.
unfoldable pub create_station :
    String → ℕ → String → String → String → Library → Result (Library × Station)
create_station id now user name url l = do
  let shown = trim is_space name
  demand (is_short 80 shown) bad_value
  let row : Station = record {
    id = id;
    owner = some user;
    name = shown;
    stream_url = url;
    created_at = now;
  }
  demand (count (is_station id) l.stations == 0) conflict
  demand (count (has_station_name user shown) l.stations == 0) conflict
  stored (record l { stations = l.stations ++ row ∷ [] }, row)

abbrev pub is_own_station : String → String → Station → Bool
is_own_station user id s = is_station id s && is_owned_by user s.owner

-- `DeleteStation`; its favorites go with it.
unfoldable pub delete_station : String → String → Library → Result Library
delete_station user id l = do
  demand (not (count (is_own_station user id) l.stations == 0)) not_found
  stored (record l {
    stations = keep (λ s. not (is_own_station user id s)) l.stations;
    favorites = keep (λ f. not (same f.station_id id)) l.favorites;
  })

abbrev pub is_visible : String → Station → Bool
is_visible user s = is_household s.owner || is_owned_by user s.owner

abbrev pub is_favorite : String → String → Favorite → Bool
is_favorite user id f = same f.user_id user && same f.station_id id

-- `SetFavorite` of a station that the user sees.
unfoldable pub set_favorite : String → String → Bool → Library → Result Library
set_favorite user id favorite l = do
  demand (not (count (λ s. is_station id s && is_visible user s) l.stations == 0)) not_found
  let others = keep (λ f. not (is_favorite user id f)) l.favorites
  let present = count (is_favorite user id) l.favorites == 0
  let added =
      if present
      then l.favorites ++ record { user_id = user; station_id = id } ∷ []
      else l.favorites
  stored (record l { favorites = if favorite then added else others })

-- `ORDER BY owner_user_id IS NOT NULL, lower(name)`
abbrev pub station_before : Station → Station → Bool
station_before s t =
    if is_household s.owner
    then (if is_household t.owner then text_ltb (lowered s.name) (lowered t.name) else true)
    else (if is_household t.owner then false else text_ltb (lowered s.name) (lowered t.name))

abbrev pub insert_sorted {ℓ} : {A : Type ℓ} → (A → A → Bool) → A → List A → List A
insert_sorted before x [] = x ∷ []
insert_sorted before x (y ∷ ys) =
    let rest = insert_sorted before x ys in if before y x then y ∷ rest else x ∷ y ∷ ys

abbrev pub sorted_by {ℓ} : {A : Type ℓ} → (A → A → Bool) → List A → List A
sorted_by before [] = []
sorted_by before (x ∷ xs) = insert_sorted before x (sorted_by before xs)

abbrev pub station_matches : List ℕ → Station → Bool
station_matches pattern s = like pattern (lowered s.name) || like pattern (lowered s.stream_url)

abbrev pub with_favorite : String → List Favorite → Station → Station × Bool
with_favorite user favorites s = (s, not (count (is_favorite user s.id) favorites == 0))

-- `ListStations`: each with whether it is a favorite of the user.
unfoldable pub list_stations : (String → String) → String → String → Library → List (Station × Bool)
list_stations lower user query l =
    let pattern = pattern_of lower query in
    map (with_favorite user l.favorites) (
      sorted_by station_before
        (keep (λ s. is_visible user s && station_matches pattern s) l.stations))

abbrev pub is_like : String → String → String → LikedTrack → Bool
is_like user url title t = same t.user_id user && same t.source_url url && same t.title title

abbrev pub liked_again : String → ℕ → LikedTrack → LikedTrack
liked_again kind now t = record t { source_kind = kind; created_at = now }

-- `LikeTrack`: a like of the same track is renewed.
unfoldable pub like_track :
    ℕ → String → String → String → String → Library → Result (Library × LikedTrack)
like_track now user kind url title l = do
  let shown = trim is_space title
  demand (is_short 500 shown) bad_value
  let row : LikedTrack = record {
    user_id = user;
    source_kind = kind;
    source_url = url;
    title = shown;
    created_at = now;
  }
  let renewed = map (λ t. if is_like user url shown t then liked_again kind now t else t) l.likes
  let fresh = count (is_like user url shown) l.likes == 0
  stored (record l { likes = if fresh then l.likes ++ row ∷ [] else renewed }, row)

unfoldable pub delete_liked_track : String → String → String → Library → Result Library
delete_liked_track user url title l = do
  demand (not (count (is_like user url title) l.likes == 0)) not_found
  stored (record l { likes = keep (λ t. not (is_like user url title t)) l.likes })

abbrev pub capped : ℕ → ℕ → ℕ
capped limit otherwise = if limit == 0 || ltb 200 limit then otherwise else limit

abbrev pub first_few {ℓ} : {A : Type ℓ} → ℕ → List A → List A
first_few zero xs = []
first_few (suc n) [] = []
first_few (suc n) (x ∷ xs) = x ∷ first_few n xs

-- `ListLikedTracks`: the latest first, by the texts of their times.
unfoldable pub list_liked_tracks : (ℕ → String) → String → ℕ → Library → List LikedTrack
list_liked_tracks shown user limit l = first_few (capped limit 100) (
    sorted_by (λ s t. comes_before (shown t.created_at) (shown s.created_at))
      (keep (λ t. same t.user_id user) l.likes))
