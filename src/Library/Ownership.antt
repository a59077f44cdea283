-- ===== src/Library/Ownership.antt =====
-- internal/library and internal/app/library.go: a request changes only what belongs to its user.
use raspi_media_player.Base.{
  ℕ, String, Bool, true, false, not, ◌≡◌, ◌≢◌, refl, sym, ap, ◌∙◌, Option, none, some, List, ◌&&◌,
  map, count, keep, keep-append_out, keep-keep_out, keep-map_out, keep-map_other, if_split, same,
  same_ne, eq_iff, if◌then◌else◌, ◌==◌, trim, is_space, arith,
}
use raspi_media_player.Library.Rows.{
  Playlist, PlaylistItem, HistoryItem, LikedTrack, Library, LibraryError, not_found, conflict,
  bad_value, violated_constraint, Result, stored, failed, ◌>>=◌, ◌>>◌, demand,
}
use raspi_media_player.Library.Store.{
  is_owned_by, is_own_station, is_station, is_like, liked_again, create_station, delete_station,
  set_favorite, like_track, delete_liked_track,
}
use raspi_media_player.Library.Playlists.{
  is_own_playlist, is_playlist, touched, create_playlist, delete_playlist, add_playlist_item,
  remove_playlist_item, renumbered_items,
}
use raspi_media_player.Library.History.{is_attributed, is_segment, remove_user_history}

abbrev pub playlist_name : Playlist → String × String
playlist_name p = (p.id, p.name)

-- What one user owns: stations, playlists by id and name, likes, and the plays that name the user.
pub record KeepsFor (v : String) (l l' : Library) : Type 0 where
  pub stations :
      keep (λ s. is_owned_by v s.owner) l'.stations ≡ keep (λ s. is_owned_by v s.owner) l.stations
  pub playlists :
      map playlist_name (keep (λ p. same p.owner v) l'.playlists)
      ≡ map playlist_name (keep (λ p. same p.owner v) l.playlists)
  pub likes : keep (λ t. same t.user_id v) l'.likes ≡ keep (λ t. same t.user_id v) l.likes
  pub plays : keep (is_attributed v) l'.history ≡ keep (is_attributed v) l.history

pub kept : (v : String) (l : Library) → KeepsFor v l l
kept v l = record { stations = refl; playlists = refl; likes = refl; plays = refl }

-- What a result of the store keeps, where it is one.
pub data Keeps (v : String) (l : Library) : Result Library → Type 0 where
  keeps : {l' : Library} → KeepsFor v l l' → Keeps v l (stored l')
  refuses : {e : LibraryError} → Keeps v l (failed e)

pub data KeepsWith {ℓ} {A : Type ℓ} (v : String) (l : Library) : Result (Library × A) → Type ℓ where
  keeps_with : {l' : Library} {row : A} → KeepsFor v l l' → KeepsWith v l (stored (l', row))
  refuses_it : {e : LibraryError} → KeepsWith v l (failed e)

module _ (u v : String) (differ : u ≢ v) where
  -- What is the one user's is not the other's.
  not_both : (x : String) → same x u ≡ true → same x v ≡ false
  not_both x e = same_ne x v (λ h. differ (sym ((eq_iff x u).0 e) ∙ h))

  not_owned : (o : Option String) → is_owned_by u o ≡ true → is_owned_by v o ≡ false
  not_owned none e = cc e
  not_owned (some x) e = not_both x e

  demanded :
      (b : Bool) (e : LibraryError) (l : Library) (rest : Result Library)
      → Keeps v l rest
      → Keeps v l (demand b e >> rest)
  demanded true e l rest h = h
  demanded false e l rest h = refuses

  demanded_with {ℓ} :
      {A : Type ℓ} (b : Bool) (e : LibraryError) (l : Library) (rest : Result (Library × A))
      → KeepsWith v l rest
      → KeepsWith v l (demand b e >> rest)
  demanded_with true e l rest h = h
  demanded_with false e l rest h = refuses_it

  second_of : (a b : Bool) → (a && b) ≡ true → b ≡ true
  second_of true b e = e
  second_of false b e = cc e

  negated : (b : Bool) → not b ≡ false → b ≡ true
  negated true e = refl
  negated false e = cc e

  own_row : same u v ≡ false
  own_row = same_ne u v differ

  pub create_station-Keeps :
      (id : String) (now : ℕ) (name url : String) (l : Library)
      → KeepsWith v l (create_station id now u name url l)
  unfolding create_station
  create_station-Keeps id now name url l = demanded_with _ bad_value l _ (
      demanded_with _ conflict l _ (
        demanded_with _ conflict l _ (
          keeps_with (record {
            stations = keep-append_out (λ s. is_owned_by v s.owner) l.stations _ own_row;
            playlists = refl;
            likes = refl;
            plays = refl;
          }))))

  pub delete_station-Keeps : (id : String) (l : Library) → Keeps v l (delete_station u id l)
  unfolding delete_station
  delete_station-Keeps id l =
      demanded (not (count (is_own_station u id) l.stations == 0)) not_found l _ (
        keeps (record {
          stations =
              keep-keep_out (λ s. is_owned_by v s.owner) (λ s. not (is_own_station u id s))
                l.stations
                (λ s e. not_owned s.owner (
                  second_of (is_station id s) (is_owned_by u s.owner)
                    (negated (is_own_station u id s) e)));
          playlists = refl;
          likes = refl;
          plays = refl;
        }))

  pub set_favorite-Keeps :
      (id : String) (b : Bool) (l : Library) → Keeps v l (set_favorite u id b l)
  unfolding set_favorite
  set_favorite-Keeps id b l =
      demanded _ not_found l _
        (keeps (record { stations = refl; playlists = refl; likes = refl; plays = refl }))

  pub like_track-Keeps :
      (now : ℕ) (kind url title : String) (l : Library)
      → KeepsWith v l (like_track now u kind url title l)
  unfolding like_track
  like_track-Keeps now kind url title l = demanded_with _ bad_value l _ (
      keeps_with (record {
        stations = refl;
        playlists = refl;
        likes =
            if_split
              (λ rows.
                keep (λ (t : LikedTrack). same t.user_id v) rows
                ≡ keep (λ t. same t.user_id v) l.likes)
              (count (is_like u url (trim is_space title)) l.likes == 0) _ _
              (λ e. keep-append_out (λ (t : LikedTrack). same t.user_id v) l.likes _ own_row)
              (λ e.
                keep-map_other (λ (t : LikedTrack). same t.user_id v) change l.likes same_user
                  others);
        plays = refl;
      }))
    where
      change : LikedTrack → LikedTrack
      change t = if is_like u url (trim is_space title) t then liked_again kind now t else t

      same_user : (t : LikedTrack) → same (change t).user_id v ≡ same t.user_id v
      same_user t =
          if_split (λ (x : LikedTrack). same x.user_id v ≡ same t.user_id v)
            (is_like u url (trim is_space title) t) (liked_again kind now t) t (λ e. refl)
            (λ e. refl)

      first_of : (a b c : Bool) → (a && b && c) ≡ true → a ≡ true
      first_of a b c e = ground arith

      others : (t : LikedTrack) → same t.user_id v ≡ true → change t ≡ t
      others t own =
          if_split (λ (x : LikedTrack). x ≡ t) (is_like u url (trim is_space title) t)
            (liked_again kind now t) t
            (λ e. cc (
              own,
              not_both t.user_id (
                  first_of (same t.user_id u) (same t.source_url url)
                    (same t.title (trim is_space title)) e),
            ))
            (λ e. refl)

  pub delete_liked_track-Keeps :
      (url title : String) (l : Library) → Keeps v l (delete_liked_track u url title l)
  unfolding delete_liked_track
  delete_liked_track-Keeps url title l = demanded _ not_found l _ (
      keeps (record {
        stations = refl;
        playlists = refl;
        likes =
            keep-keep_out (λ (t : LikedTrack). same t.user_id v) (λ t. not (is_like u url title t))
              l.likes
              (λ t e. not_both t.user_id (
                first_of (same t.user_id u) (same t.source_url url) (same t.title title)
                  (negated (is_like u url title t) e)));
        plays = refl;
      }))
    where
      first_of : (a b c : Bool) → (a && b && c) ≡ true → a ≡ true
      first_of a b c e = ground arith

  pub create_playlist-Keeps :
      (id : String) (now : ℕ) (name : String) (l : Library)
      → KeepsWith v l (create_playlist id now u name l)
  unfolding create_playlist
  create_playlist-Keeps id now name l = demanded_with _ bad_value l _ (
      demanded_with _ conflict l _ (
        demanded_with _ conflict l _ (
          keeps_with (record {
            stations = refl;
            playlists =
                ap (map playlist_name)
                  (keep-append_out (λ p. same p.owner v) l.playlists _ own_row);
            likes = refl;
            plays = refl;
          }))))

  pub delete_playlist-Keeps : (id : String) (l : Library) → Keeps v l (delete_playlist u id l)
  unfolding delete_playlist
  delete_playlist-Keeps id l = demanded _ not_found l _ (
      keeps (record {
        stations = refl;
        playlists = ap (map playlist_name) (
            keep-keep_out (λ (p : Playlist). same p.owner v) (λ p. not (is_own_playlist u id p))
              l.playlists
              (λ p e.
                not_both p.owner (
                  second_of (same p.id id) (same p.owner u) (negated (is_own_playlist u id p) e))));
        likes = refl;
        plays = refl;
      }))

  -- A new time of update stands in the row of a playlist, not in what is compared.
  touched-names :
      (id : String) (now : ℕ) (rows : List Playlist)
      → map playlist_name (keep (λ p. same p.owner v) (map (touched id now) rows))
        ≡ map playlist_name (keep (λ p. same p.owner v) rows)
  touched-names id now rows =
      keep-map_out (λ (p : Playlist). same p.owner v) playlist_name (touched id now) rows
        (λ p.
          if_split (λ (x : Playlist). same x.owner v ≡ same p.owner v) (is_playlist id p)
            (record p { updated_at = now }) p (λ e. refl) (λ e. refl))
        (λ p own.
          if_split (λ (x : Playlist). playlist_name x ≡ playlist_name p) (is_playlist id p)
            (record p { updated_at = now }) p (λ e. refl) (λ e. refl))

  pub add_playlist_item-Keeps :
      (id : String) (now : ℕ) (playlist name kind url : String) (l : Library)
      → KeepsWith v l (add_playlist_item id now u playlist name kind url l)
  unfolding add_playlist_item
  add_playlist_item-Keeps id now playlist name kind url l = demanded_with _ not_found l _ (
      demanded_with _ violated_constraint l _ (
        demanded_with _ violated_constraint l _ (
          keeps_with (record {
            stations = refl;
            playlists = touched-names playlist now l.playlists;
            likes = refl;
            plays = refl;
          }))))

  pub remove_playlist_item-Keeps :
      (playlist id : String) (l : Library) → Keeps v l (remove_playlist_item u playlist id l)
  unfolding remove_playlist_item
  remove_playlist_item-Keeps playlist id l =
      demanded _ not_found l _ (renumbered (renumbered_items playlist _))
    where
      renumbered :
          (r : Result (List PlaylistItem))
          → Keeps v l (r >>= λ items. stored (record l { items = items }))
      renumbered (stored items) =
          keeps (record { stations = refl; playlists = refl; likes = refl; plays = refl })
      renumbered (failed e) = refuses

  pub remove_user_history-Keeps :
      (id : String) (l : Library) → Keeps v l (remove_user_history u id l)
  unfolding remove_user_history
  remove_user_history-Keeps id l = demanded _ not_found l _ (
      keeps (record {
        stations = refl;
        playlists = refl;
        likes = refl;
        plays = keep-map_other (is_attributed v) change l.history same_owner others;
      }))
    where
      own : HistoryItem → Bool
      own i = is_segment id i && is_attributed u i

      forget : HistoryItem → HistoryItem
      forget i = record i { submitter = none }

      change : HistoryItem → HistoryItem
      change i = if own i then forget i else i

      not_mine : (i : HistoryItem) → own i ≡ true → is_attributed v i ≡ false
      not_mine i e = not_owned i.submitter (second_of (is_segment id i) (is_attributed u i) e)

      same_owner : (i : HistoryItem) → is_attributed v (change i) ≡ is_attributed v i
      same_owner i =
          if_split (λ (x : HistoryItem). is_attributed v x ≡ is_attributed v i) (own i) (forget i) i
            (λ e. sym (not_mine i e)) (λ e. refl)

      others : (i : HistoryItem) → is_attributed v i ≡ true → change i ≡ i
      others i mine =
          if_split (λ (x : HistoryItem). x ≡ i) (own i) (forget i) i (λ e. cc (mine, not_mine i e))
            (λ e. refl)
