-- ===== src/AutoQueue/Turns.antt =====
-- The turns of users in internal/autoqueue/engine.go: `fairUser` and `markUserSelected` over the table
-- `auto_queue_user_turns`.
use raspi_media_player.Base.{
  String, Bool, true, false, List, [], ◌∷◌, ◌++◌, ◌||◌, same, if◌then◌else◌, comes_before,
}

pub record Turn : Type 0 where
  pub user_id : String
  pub last_selected_at : String

-- `turns[id]`, which is empty for a user without a turn.
abbrev pub turn_of : String → List Turn → String
turn_of id [] = ""
turn_of id (t ∷ turns) =
    let later = turn_of id turns in if same t.user_id id then t.last_selected_at else later

pub record Choice : Type 0 where
  pub oldest : String
  pub candidates : List String

abbrev pub is_none : List String → Bool
is_none [] = true
is_none (x ∷ xs) = false

-- The body of the loop of `fairUser`.
abbrev pub considered : List Turn → String → Choice → Choice
considered turns id c =
    let at = turn_of id turns in
    if is_none c.candidates || comes_before at c.oldest
    then record { oldest = at; candidates = id ∷ [] }
    else (if same at c.oldest
        then record { oldest = c.oldest; candidates = c.candidates ++ id ∷ [] }
        else c)

abbrev pub consider_all : List Turn → List String → Choice → Choice
consider_all turns [] c = c
consider_all turns (id ∷ users) c = consider_all turns users (considered turns id c)

-- The users of whom `fairUser` picks one at random.
unfoldable pub fair_candidates : List Turn → List String → List String
fair_candidates turns users =
    (consider_all turns users (record { oldest = ""; candidates = [] })).candidates

-- `markUserSelected`
unfoldable pub mark_user_selected : String → String → List Turn → List Turn
mark_user_selected id now [] = record { user_id = id; last_selected_at = now } ∷ []
mark_user_selected id now (t ∷ turns) =
    let rest = mark_user_selected id now turns in
    if same t.user_id id then record { user_id = id; last_selected_at = now } ∷ turns else t ∷ rest
