-- ===== src/Library/History.antt =====
-- internal/library/store.go: the history of what was played, in segments. The text of a moment and Go's
-- `strings.EqualFold` and `strings.ToLower` are arguments; the texts of the times are compared.
use raspi_media_player.Base.{
  ℕ, ◌+◌, ◌-◌, String, Bool, true, false, not, Option, none, some, List, [], ◌∷◌, ◌++◌, ◌&&◌, ◌||◌,
  map, count, keep, same, comes_before, ◌==◌, ltb, if◌then◌else◌, trim, is_space,
}
use raspi_media_player.Library.Rows.{
  HistoryItem, Library, not_found, violated_constraint, Result, stored, ◌>>◌, demand, lowered, like,
  pattern_of,
}
use raspi_media_player.Library.Store.{is_owned_by, sorted_by, first_few, capped}

abbrev pub is_unfinished : Option ℕ → Bool
is_unfinished none = true
is_unfinished (some t) = false

abbrev pub is_open : String → HistoryItem → Bool
is_open queue_item i = same i.queue_item_id queue_item && is_unfinished i.finished_at

abbrev pub is_segment : String → HistoryItem → Bool
is_segment id i = same i.id id

abbrev pub interrupted : ℕ → HistoryItem → HistoryItem
interrupted now i = record i { finished_at = some now; outcome = "interrupted" }

-- An update of the rows that pass a test.
abbrev pub update_segments :
    (HistoryItem → Bool) → (HistoryItem → HistoryItem) → List HistoryItem → List HistoryItem
update_segments test change = map (λ i. if test i then change i else i)

abbrev pub submitter_of : String → Option String
submitter_of user = if same user "" then none else some user

abbrev pub new_segment :
    String → ℕ → String → String → String → String → Option String → HistoryItem
new_segment id now queue_item kind url title submitter = record {
  id = id;
  queue_item_id = queue_item;
  source_kind = kind;
  source_url = url;
  title = title;
  submitter = submitter;
  started_at = now;
  finished_at = none;
  outcome = "playing";
  failure = "";
}

-- `RecordStarted`
unfoldable pub record_started :
    String → ℕ → String → String → String → String → Library → Result Library
record_started id now queue_item kind url user l = do
  demand (count (is_segment id) l.history == 0) violated_constraint
  let closed = update_segments (is_open queue_item) (interrupted now) l.history
  let row = new_segment id now queue_item kind url "" (submitter_of user)
  stored (record l { history = closed ++ row ∷ [] })

-- `ORDER BY started_at DESC`
abbrev pub latest_started : (ℕ → String) → List HistoryItem → List HistoryItem
latest_started shown = sorted_by (λ i j. comes_before (shown j.started_at) (shown i.started_at))

abbrev pub head_of : List HistoryItem → Option HistoryItem
head_of [] = none
head_of (i ∷ items) = some i

-- `ORDER BY started_at DESC LIMIT 1` of the open segments.
abbrev pub open_segment : (ℕ → String) → String → List HistoryItem → Option HistoryItem
open_segment shown queue_item items =
    head_of (latest_started shown (keep (is_open queue_item) items))

abbrev pub finished : String → ℕ → String → String → HistoryItem → HistoryItem
finished title now outcome failure i = record i {
  title = title;
  finished_at = some now;
  outcome = outcome;
  failure = failure;
}

abbrev pub finish_segment :
    Option HistoryItem → String → ℕ → String → String → List HistoryItem → List HistoryItem
finish_segment none title now outcome failure items = items
finish_segment (some i) title now outcome failure items =
    update_segments (is_segment i.id) (finished title now outcome failure) items

-- What the retention deletes: a retention of 0 keeps everything. The clock is later
-- than the retention is long.
abbrev pub retained : (ℕ → String) → ℕ → ℕ → List HistoryItem → List HistoryItem
retained shown retention now items =
    let left =
      keep (λ i. not (comes_before (shown i.started_at) (shown (now - retention)))) items in
    if retention == 0 then items else left

-- `RecordFinished`
unfoldable pub record_finished :
    (ℕ → String) → ℕ → String → ℕ → String → String → String → Library → Library
record_finished shown retention queue_item now title outcome failure l =
    let closed =
      finish_segment (open_segment shown queue_item l.history) title now outcome failure
        l.history in
    record l { history = retained shown retention now closed }

abbrev pub titled : String → HistoryItem → HistoryItem
titled title i = record i { title = title }

abbrev pub completed : ℕ → HistoryItem → HistoryItem
completed now i = record i { finished_at = some now; outcome = "completed" }

abbrev pub five_seconds : ℕ
five_seconds = 5_000_000_000

-- A new title on the open segment `i`: it is its first, or a new segment starts, unless the last one has
-- just started.
abbrev pub retitle_segment : String → ℕ → String → HistoryItem → Library → Result (Library × Bool)
retitle_segment id now title i l =
    if same i.title ""
    then stored
        (record l { history = update_segments (is_segment i.id) (titled title) l.history }, false)
    else (if ltb now (i.started_at + five_seconds) then stored (l, false) else (do
      let closed = update_segments (is_segment i.id) (completed now) l.history
      demand (count (is_segment id) l.history == 0) violated_constraint
      let row = new_segment id now i.queue_item_id i.source_kind i.source_url title i.submitter
      stored (record l { history = closed ++ row ∷ [] }, true)))

abbrev pub title_recorded :
    (String → String → Bool)
    → String
    → ℕ
    → String
    → Option HistoryItem
    → Library
    → Result (Library × Bool)
title_recorded folds_equal id now title none l = stored (l, false)
title_recorded folds_equal id now title (some i) l =
    if folds_equal (trim is_space i.title) title
    then stored (l, false)
    else retitle_segment id now title i l

-- `RecordTitleChanged`
unfoldable pub record_title_changed :
    (ℕ → String)
    → (String → String → Bool)
    → String
    → ℕ
    → String
    → String
    → Library
    → Result (Library × Bool)
record_title_changed shown folds_equal id now queue_item title l =
    let new_title = trim is_space title in
    if same new_title ""
    then stored (l, false)
    else title_recorded folds_equal id now new_title (open_segment shown queue_item l.history) l

abbrev pub is_attributed : String → HistoryItem → Bool
is_attributed user i = is_owned_by user i.submitter

-- `RemoveUserHistory`
unfoldable pub remove_user_history : String → String → Library → Result Library
remove_user_history user id l = do
  let own = λ (i : HistoryItem). is_segment id i && is_attributed user i
  demand (not (count own l.history == 0)) not_found
  stored (record l { history = update_segments own (λ i. record i { submitter = none }) l.history })

abbrev pub segment_matches : List ℕ → HistoryItem → Bool
segment_matches pattern i = like pattern (lowered i.title) || like pattern (lowered i.source_url)

-- `ListHistory`
unfoldable pub list_history :
    (ℕ → String) → (String → String) → String → ℕ → Library → List HistoryItem
list_history shown lower query limit l =
    let pattern = pattern_of lower query in
    first_few (capped limit 50) (latest_started shown (keep (segment_matches pattern) l.history))

-- `ListUserHistory`
unfoldable pub list_user_history : (ℕ → String) → String → ℕ → Library → List HistoryItem
list_user_history shown user limit l =
    first_few (capped limit 100) (latest_started shown (keep (is_attributed user) l.history))
