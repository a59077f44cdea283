-- ===== src/Library/Playlists.antt =====
-- internal/library/store.go: playlists. A violated constraint aborts a statement, and its error is
-- ignored where the code ignores it.
use raspi_media_player.Base.{
  ℕ, zero, suc, ℤ, pos, negsuc, eqb_ℤ, ltb_ℤ, complement, String, Bool, not, Option, none, some,
  List, [], ◌∷◌, ◌++◌, ◌&&◌, map, count, keep, same, text_ltb, ◌==◌, if◌then◌else◌, trim, is_space,
}
use raspi_media_player.Library.Rows.{
  Playlist, PlaylistItem, Library, not_found, conflict, bad_value, violated_constraint, Result,
  stored, failed, ◌>>=◌, ◌>>◌, demand, lowered, like, pattern_of,
}
use raspi_media_player.Library.Store.{is_short, sorted_by}

abbrev pub is_playlist : String → Playlist → Bool
is_playlist id p = same p.id id

abbrev pub is_own_playlist : String → String → Playlist → Bool
is_own_playlist user id p = same p.id id && same p.owner user

-- `CreatePlaylist`: the id is fresh, and the name new to its owner.
unfoldable pub create_playlist :
    String → ℕ → String → String → Library → Result (Library × Playlist)
create_playlist id now user name l = do
  let shown = trim is_space name
  demand (is_short 80 shown) bad_value
  let row : Playlist = record {
    id = id;
    owner = user;
    name = shown;
    created_at = now;
    updated_at = now;
  }
  demand (count (is_playlist id) l.playlists == 0) conflict
  demand (count (λ p. same p.owner user && same p.name shown) l.playlists == 0) conflict
  stored (record l { playlists = l.playlists ++ row ∷ [] }, row)

abbrev pub is_in : String → PlaylistItem → Bool
is_in id i = same i.playlist_id id

-- `DeletePlaylist`; its items go with it.
unfoldable pub delete_playlist : String → String → Library → Result Library
delete_playlist user id l = do
  demand (not (count (is_own_playlist user id) l.playlists == 0)) not_found
  stored (record l {
    playlists = keep (λ p. not (is_own_playlist user id p)) l.playlists;
    items = keep (λ i. not (is_in id i)) l.items;
  })

-- `MAX(position)` of the items of a playlist.
abbrev pub greatest : List PlaylistItem → Option ℤ
greatest [] = none
greatest (i ∷ items) = elim (greatest items) [
  | none ↦ some i.position
  | some m ↦ some (if ltb_ℤ m i.position then i.position else m)
]

abbrev pub successor : ℤ → ℤ
successor (pos n) = pos (suc n)
successor (negsuc zero) = pos 0
successor (negsuc (suc n)) = negsuc n

abbrev pub next_position : Option ℤ → ℤ
next_position none = pos 0
next_position (some m) = successor m

abbrev pub is_item : String → PlaylistItem → Bool
is_item id i = same i.id id

abbrev pub is_at : String → ℤ → PlaylistItem → Bool
is_at playlist p i = is_in playlist i && eqb_ℤ i.position p

abbrev pub touched : String → ℕ → Playlist → Playlist
touched id now p = if is_playlist id p then record p { updated_at = now } else p

-- `AddPlaylistItem`, at the end of a playlist of the user.
unfoldable pub add_playlist_item :
    String
    → ℕ
    → String
    → String
    → String
    → String
    → String
    → Library
    → Result (Library × PlaylistItem)
add_playlist_item id now user playlist name kind url l = do
  demand (not (count (is_own_playlist user playlist) l.playlists == 0)) not_found
  let position = next_position (greatest (keep (is_in playlist) l.items))
  let row : PlaylistItem = record {
    id = id;
    playlist_id = playlist;
    name = trim is_space name;
    source_kind = kind;
    source_url = url;
    position = position;
  }
  demand (count (is_item id) l.items == 0) violated_constraint
  demand (count (is_at playlist position) l.items == 0) violated_constraint
  stored (
    record l { items = l.items ++ row ∷ []; playlists = map (touched playlist now) l.playlists },
    row,
  )

-- A statement that moves rows one by one, in the order of the table: it fails where the new position is
-- taken in the playlist at that moment.
abbrev pub move_rows :
    (PlaylistItem → Bool)
    → (ℤ → ℤ)
    → List PlaylistItem
    → List PlaylistItem
    → Result (List PlaylistItem)
move_rows test target earlier [] = stored earlier
move_rows test target earlier (i ∷ later) =
    let moved = record i { position = target i.position } in
    let free = count (is_at i.playlist_id (target i.position)) (earlier ++ later) == 0 in
    let onward = move_rows test target (earlier ++ moved ∷ []) later in
    let past = move_rows test target (earlier ++ i ∷ []) later in
    if test i then (if free then onward else failed violated_constraint) else past

abbrev pub or_as_before : List PlaylistItem → Result (List PlaylistItem) → List PlaylistItem
or_as_before items (stored moved) = moved
or_as_before items (failed e) = items

abbrev pub number_items : ℕ → List String → List PlaylistItem → Result (List PlaylistItem)
number_items n [] items = stored items
number_items n (id ∷ ids) items =
    move_rows (is_item id) (λ p. pos n) [] items >>= number_items (suc n) ids

-- `ORDER BY position`
abbrev pub ordered : List PlaylistItem → List PlaylistItem
ordered = sorted_by (λ i j. ltb_ℤ i.position j.position)

abbrev pub item_ids : List PlaylistItem → List String
item_ids items = map (λ (i : PlaylistItem). i.id) items

abbrev pub removes : String → String → PlaylistItem → Bool
removes id playlist i = is_item id i && is_in playlist i

abbrev pub renumbered_items : String → List PlaylistItem → Result (List PlaylistItem)
renumbered_items playlist items =
    number_items 0 (item_ids (ordered (keep (is_in playlist) items)))
      (or_as_before items (move_rows (is_in playlist) complement [] items))

-- `RemovePlaylistItem`, which closes the gap.
unfoldable pub remove_playlist_item : String → String → String → Library → Result Library
remove_playlist_item user playlist id l = do
  let owned = not (count (is_own_playlist user playlist) l.playlists == 0)
  demand (owned && not (count (removes id playlist) l.items == 0)) not_found
  items ← renumbered_items playlist (keep (λ i. not (removes id playlist i)) l.items)
  stored (record l { items = items })

unfoldable pub playlist_items : String → Library → List PlaylistItem
playlist_items playlist l = ordered (keep (is_in playlist) l.items)

-- `ListPlaylists`, with the items of each.
unfoldable pub list_playlists :
    (String → String) → String → String → Library → List (Playlist × List PlaylistItem)
unfolding playlist_items
list_playlists lower user query l =
    let pattern = pattern_of lower query in
    map (λ p. (p, playlist_items p.id l))
      (sorted_by (λ p q. text_ltb (lowered p.name) (lowered q.name))
        (keep (λ p. same p.owner user && like pattern (lowered p.name)) l.playlists))
