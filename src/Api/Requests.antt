-- ===== src/Api/Requests.antt =====
-- internal/app/queue.go and internal/app/voting.go: what the handlers of the queue share. A request
-- carries what the router, the session and the clock answer; a header is its text.
use Prim.Native.String as Text
use raspi_media_player.Base.{
  ℕ, ℤ, pos, negsuc, String, Bool, false, Option, none, some, List, [], ◌∷◌, map, ◌||◌, same,
  if◌then◌else◌, atoi, trim, is_space, is_quote,
}
use raspi_media_player.Queue.Rows.{Db, Item, Snapshot, Error, duplicate, not_found, conflict, full}
use raspi_media_player.Voting.Policy.{Settings, VotePolicy}
use raspi_media_player.Voting.Manager.{VoteManager, SkipVoteState, touch, state}
use raspi_media_player.Api.Limiter.{RateLimiter}

pub record Identity : Type 0 where
  pub user_id : String
  pub username : String
  pub is_admin : Bool

-- `remote_host` is what `net.SplitHostPort` makes of `remote_addr`, `none` on its error.
pub record Request : Type 0 where
  pub identity : Option Identity
  pub listener_cookie : Option String
  pub remote_addr : String
  pub remote_host : Option String
  pub if_match : String
  pub now : ℕ

-- A snapshot as the handlers send it: `removal_votes` has an entry for each item in turn.
pub record Page : Type 0 where
  pub snapshot : Snapshot
  pub skip_vote : Option SkipVoteState
  pub removal_votes : List (Option SkipVoteState)

pub data Response : Type 0 where
  error_response : ℕ → String → Response
  page_response : ℕ → Page → Response

-- What `sources.Classify` answers.
pub data Classification : Type 0 where
  classified : String → Classification
  unsupported invalid : Classification

-- The state that the handlers share.
pub record Server : Type 0 where
  pub db : Db
  pub votes : VoteManager
  pub limiter : RateLimiter
  pub settings : Settings
  pub queue_limit : ℕ
  pub classify : String → Classification

abbrev pub or_empty_text : Option String → String
or_empty_text none = ""
or_empty_text (some text) = text

unfoldable pub listener_id : Request → String
listener_id r = elim r.identity [
  | some identity ↦ Text.◌++◌ "user:" identity.user_id
  | none ↦
      if same (or_empty_text r.listener_cookie) ""
      then Text.◌++◌ "request:" (or_empty_text r.remote_host)
      else Text.◌++◌ "browser:" (or_empty_text r.listener_cookie)
]

abbrev pub client_ip : Request → String
client_ip r = elim r.remote_host [ none ↦ r.remote_addr | some host ↦ host ]

-- The outcome of `requiredRevision`.
pub data Required : Type 0 where
  refused : Response → Required
  expects : ℕ → Required

abbrev pub revision_of : Option ℤ → Required
revision_of none = refused (error_response 400 "invalid_revision")
revision_of (some (negsuc n)) = refused (error_response 400 "invalid_revision")
revision_of (some (pos n)) = expects n

unfoldable pub required_revision : String → Required
required_revision header =
    let value = trim is_quote (trim is_space header) in
    if same value ""
    then refused (error_response 428 "revision_required")
    else revision_of (atoi value)

-- `queueError`. A violated constraint is an internal error.
abbrev pub queue_error : Error → Response
queue_error duplicate = error_response 409 "duplicate_source"
queue_error not_found = error_response 404 "queue_item_not_found"
queue_error conflict = error_response 409 "revision_conflict"
queue_error full = error_response 409 "queue_full"
queue_error _ = error_response 500 "internal_error"

abbrev pub first_id : List Item → String
first_id [] = ""
first_id (item ∷ items) = item.id

-- The item that a vote to skip is about.
abbrev pub skip_target : Snapshot → String
skip_target s = if same s.current_item_id "" then first_id s.items else s.current_item_id

abbrev pub skip_key : String → String
skip_key item = Text.◌++◌ "skip:" item

abbrev pub removal_key : String → String
removal_key item = Text.◌++◌ "remove:" item

abbrev pub is_admin : Option Identity → Bool
is_admin none = false
is_admin (some identity) = identity.is_admin

abbrev pub owns : Option Identity → Item → Bool
owns none item = false
owns (some identity) item = same item.submitter.user_id identity.user_id

abbrev pub if_enabled : SkipVoteState → Option SkipVoteState
if_enabled v = if v.enabled then some v else none

-- The votes on removing the items of others.
unfoldable pub removal_votes :
    VotePolicy
    → Option Identity
    → String
    → ℕ
    → List Item
    → VoteManager
    → VoteManager × List (Option SkipVoteState)
removal_votes p identity listener now [] m = (m, [])
removal_votes p identity listener now (item ∷ items) m =
    if is_admin identity || owns identity item
    then (let (m', rest) = removal_votes p identity listener now items m in (m', none ∷ rest))
    else (let (m', v) = state p (removal_key item.id) item.id listener now m in
        let (m'', rest) = removal_votes p identity listener now items m' in
        (m'', if_enabled v ∷ rest))

unfoldable pub attach_vote : VotePolicy → Request → Snapshot → VoteManager → VoteManager × Page
unfolding removal_votes
attach_vote p r s m =
    let listener = listener_id r in
    let target = skip_target s in
    let (m', v) = state p (skip_key target) target listener r.now (touch listener r.now m) in
    let (m'', removals) = removal_votes p r.identity listener r.now s.items m' in
    (m'', record { snapshot = s; skip_vote = some v; removal_votes = removals })

-- A snapshot without votes.
abbrev pub plain : Snapshot → Page
plain s = record { snapshot = s; skip_vote = none; removal_votes = map (λ item. none) s.items }
