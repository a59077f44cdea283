-- ===== src/Queue/Store.antt =====
-- internal/queue/store.go: the methods of `Store`. A transaction is a function of the database; an
-- error discards its writes, as the deferred rollback does. The new id and the time are arguments.
use raspi_media_player.Base.{
  ℕ, suc, ℤ, pos, negsuc, ◌+◌, String, Bool, true, false, not, Option, none, some, List, [], ◌∷◌,
  ◌++◌, ◌||◌, map, count, keep, length, same, ◌==◌, leb, if◌then◌else◌, ltb_ℤ,
}
use raspi_media_player.Queue.Rows.{
  Row, Result, ok, err, ◌>>=◌, ◌>>◌, guard, queued, StateRow, UserRow, Db, Submitter, Item,
  Snapshot, not_found, conflict, full, duplicate, unique_violation, foreign_key_violation,
}
use raspi_media_player.Queue.Table.{
  order_by_position, has_id, is_taken, compact, has_repeat, reorder_rows,
}

abbrev pub find_user : String → List UserRow → Option UserRow
find_user id [] = none
find_user id (u ∷ users) = if same u.user_id id then some u else find_user id users

-- `LEFT JOIN users u ON u.id = q.submitter_user_id`
abbrev pub joined_user : Db → Row → Option UserRow
joined_user db r = elim r.submitter_user_id [ none ↦ none | some id ↦ find_user id db.users ]

abbrev pub is_station : String → List String → Bool
is_station url [] = false
is_station url (u ∷ urls) = same u url || is_station url urls

abbrev pub submitter_of : Option UserRow → String → Submitter
submitter_of none name = record {
  user_id = "";
  username = "";
  kind = "anonymous";
  display_name = name;
}
submitter_of (some u) name =
    if same u.user_id ""
    then record { user_id = ""; username = u.username; kind = "anonymous"; display_name = name }
    else record { user_id = u.user_id; username = u.username; kind = "user"; display_name = "" }

unfoldable pub item_of : Db → Row → Item
item_of db r = record {
  id = r.id;
  title = r.title;
  kind = r.source_kind;
  url = r.source_url;
  submitter = submitter_of (joined_user db r) r.display_name;
  position = r.position;
  status = r.playback_status;
  error = r.playback_error;
  added_at = r.added_at;
  radio = is_station r.source_url db.station_urls;
}

unfoldable pub snapshot : Db → Snapshot
snapshot db = record {
  revision = db.state.revision;
  items = map (item_of db) (order_by_position db.items);
  current_item_id = elim db.state.current_item_id [ none ↦ "" | some id ↦ id ];
  playback = db.state.playback;
}

-- `COALESCE(MAX(position), -1) + 1`
abbrev pub max_position : List Row → ℤ
max_position [] = negsuc 0
max_position (r ∷ []) = r.position
max_position (r ∷ s ∷ rows) =
    let rest = max_position (s ∷ rows) in if ltb_ℤ rest r.position then r.position else rest

abbrev pub next : ℤ → ℤ
next (pos n) = pos (suc n)
next (negsuc ℕ.zero) = pos 0
next (negsuc (suc n)) = negsuc n

abbrev pub with_state : Db → StateRow → Db
with_state db state = record db { state = state }

-- `UPDATE queue_state SET revision = revision + 1`
abbrev pub bump : Db → Db
bump db = with_state db (record db.state { revision = db.state.revision + 1 })

abbrev pub has_url : String → Row → Bool
has_url url r = same r.source_url url

abbrev pub user_exists : Option String → List UserRow → Bool
user_exists none users = true
user_exists (some id) users = elim (find_user id users) [ none ↦ false | some u ↦ true ]

-- `INSERT INTO queue_items`, with the constraints of the table.
unfoldable pub insert_item : Row → Db → Result Db
insert_item r db = do
  guard (count (has_id r.id) db.items == 0) unique_violation
  guard (not (is_taken r.position db.items)) unique_violation
  guard (count (has_url r.source_url) db.items == 0) unique_violation
  guard (user_exists r.submitter_user_id db.users) foreign_key_violation
  ok (record db { items = db.items ++ r ∷ [] })

-- `isUniqueError`
abbrev pub as_duplicate {ℓ} : {A : Type ℓ} → Result A → Result A
as_duplicate (ok a) = ok a
as_duplicate (err unique_violation) = err duplicate
as_duplicate (err e) = err e

abbrev pub new_row : String → String → String → String → String → String → Option UserRow → ℤ → Row
new_row id now source_kind url title name user position = record {
  id = id;
  source_kind = source_kind;
  source_url = url;
  title = title;
  display_name = elim user [ none ↦ name | some u ↦ "" ];
  position = position;
  added_at = now;
  submitter_user_id = elim user [ none ↦ none | some u ↦ some u.user_id ];
  playback_status = queued;
  playback_error = "";
}

abbrev pub new_item : Row → Option UserRow → Item
new_item r user = record {
  id = r.id;
  title = r.title;
  kind = r.source_kind;
  url = r.source_url;
  submitter = elim user [
    | none ↦ record {
      user_id = "";
      username = "";
      kind = "anonymous";
      display_name = r.display_name;
    }
    | some u ↦ record {
      user_id = u.user_id;
      username = u.username;
      kind = "user";
      display_name = "";
    }
  ];
  position = r.position;
  status = queued;
  error = "";
  added_at = r.added_at;
  radio = false;
}

-- The arguments of `AddSourceTitled`, with the fresh id and the time that it takes.
pub record Addition : Type 0 where
  pub id : String
  pub now : String
  pub source_kind : String
  pub url : String
  pub title : String
  pub display_name : String
  pub user : Option UserRow
  pub limit : ℕ

unfoldable pub add_source_titled : Addition → Db → Result (Db × Snapshot × Item)
unfolding insert_item
add_source_titled a db = do
  guard (not (leb a.limit (length db.items))) full
  let r =
      new_row a.id a.now a.source_kind a.url a.title a.display_name a.user
        (next (max_position db.items))
  inserted ← as_duplicate (insert_item r db)
  let after = bump inserted
  ok (after, snapshot after, new_item r a.user)

-- `mutate`: the revision is compared inside the transaction, before the operation.
unfoldable pub mutate : ℕ → (List Row → Result (List Row)) → Db → Result (Db × Snapshot)
mutate expected operation db = do
  guard (db.state.revision == expected) conflict
  rows ← operation db.items
  let after = bump (record db { items = rows })
  ok (after, snapshot after)

-- `DELETE … WHERE test`, an error where no row was affected, then `compact`.
unfoldable pub delete_and_compact : (Row → Bool) → List Row → Result (List Row)
delete_and_compact test rows = do
  guard (not (count test rows == 0)) not_found
  compact (keep (λ r. not (test r)) rows)

unfoldable pub remove : String → ℕ → Db → Result (Db × Snapshot)
unfolding mutate delete_and_compact
remove id expected = mutate expected (delete_and_compact (has_id id))

unfoldable pub clear : ℕ → Db → Result (Db × Snapshot)
unfolding mutate
clear expected = mutate expected (λ rows. compact [])

abbrev pub is_first : Row → Bool
is_first r = elim r.position [ pos n ↦ n == 0 | negsuc n ↦ false ]

unfoldable pub skip : ℕ → Db → Result (Db × Snapshot)
unfolding mutate delete_and_compact
skip expected = mutate expected (delete_and_compact is_first)

unfoldable pub reorder : List String → ℕ → Db → Result (Db × Snapshot)
unfolding mutate
reorder order expected db =
    if has_repeat [] order then err not_found else mutate expected (reorder_rows order) db
