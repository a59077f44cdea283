-- ===== src/Library/Rows.antt =====
-- internal/library/store.go and its tables: rows and errors. A moment is a number of nanoseconds; its
-- text, which is what the tables hold and compare, is an argument where it matters.
use raspi_media_player.Base.{
  ℕ, ℤ, String, Bool, true, false, Option, List, [], ◌∷◌, ◌&&◌, ◌||◌, ◌==◌, lower_code, codes, map,
  trim, is_space, ◌++◌,
}

pub record Station : Type 0 where
  pub id : String
  pub owner : Option String
  pub name : String
  pub stream_url : String
  pub created_at : ℕ

pub record Favorite : Type 0 where
  pub user_id : String
  pub station_id : String

pub record Playlist : Type 0 where
  pub id : String
  pub owner : String
  pub name : String
  pub created_at : ℕ
  pub updated_at : ℕ

pub record PlaylistItem : Type 0 where
  pub id : String
  pub playlist_id : String
  pub name : String
  pub source_kind : String
  pub source_url : String
  pub position : ℤ

-- `finished_at` is the column that is NULL while the segment plays.
pub record HistoryItem : Type 0 where
  pub id : String
  pub queue_item_id : String
  pub source_kind : String
  pub source_url : String
  pub title : String
  pub submitter : Option String
  pub started_at : ℕ
  pub finished_at : Option ℕ
  pub outcome : String
  pub failure : String

pub record LikedTrack : Type 0 where
  pub user_id : String
  pub source_kind : String
  pub source_url : String
  pub title : String
  pub created_at : ℕ

pub record Library : Type 0 where
  pub stations : List Station
  pub favorites : List Favorite
  pub playlists : List Playlist
  pub items : List PlaylistItem
  pub history : List HistoryItem
  pub likes : List LikedTrack

-- `bad_value` is an error whose text says what a value must be.
pub data LibraryError : Type 0 where
  not_found conflict bad_value violated_constraint : LibraryError

pub data Result {ℓ} (A : Type ℓ) : Type ℓ where
  stored : A → Result A
  failed : LibraryError → Result A

infixl 5 ◌>>=◌ ◌>>◌
abbrev pub ◌>>=◌ {ℓ κ} : {S : Type ℓ} {T : Type κ} → Result S → (S → Result T) → Result T
failed reason >>= step = failed reason
stored value >>= step = step value

abbrev pub ◌>>◌ {κ} : {T : Type κ} → Result (Unit {0}) → Result T → Result T
test >> rest = test >>= λ checked. rest

abbrev pub demand : Bool → LibraryError → Result (Unit {0})
demand true reason = stored tt
demand false reason = failed reason

-- `lower` of SQLite, which knows the letters of ASCII.
abbrev pub lowered : String → List ℕ
lowered s = map lower_code (codes s)

abbrev pub some_rest : (List ℕ → Bool) → List ℕ → Bool
some_rest test [] = test []
some_rest test (c ∷ cs) = test (c ∷ cs) || some_rest test cs

abbrev pub one_more : (List ℕ → Bool) → (ℕ → Bool) → List ℕ → Bool
one_more test fits [] = false
one_more test fits (c ∷ cs) = fits c && test cs

-- `LIKE`: `%` stands for any text and `_` for one character, and case does not matter.
unfoldable pub like : List ℕ → List ℕ → Bool
like [] [] = true
like [] (c ∷ cs) = false
like (p ∷ ps) cs =
    let rest = like ps in
    elim (p == b'%') [
      | true ↦ some_rest rest cs
      | false ↦ one_more rest (λ c. p == b'_' || lower_code c == lower_code p) cs
    ]

-- The pattern of a query: Go's `strings.ToLower` is an argument.
abbrev pub pattern_of : (String → String) → String → List ℕ
pattern_of lower query = b'%' ∷ codes (lower (trim is_space query)) ++ b'%' ∷ []
