-- ===== src/Api/Submission.antt =====
-- internal/app/queue.go: `addQueueItem`, and every request for the queue as one type.
use raspi_media_player.Base.{
  String, Bool, true, false, Option, none, some, List, ltb, if◌then◌else◌, trim, is_space,
  byte_length,
}
use raspi_media_player.Queue.Rows.{Db, Item, Snapshot, Result, ok, err, UserRow}
use raspi_media_player.Queue.Store.{Addition, add_source_titled}
use raspi_media_player.Api.Limiter.{allow}
use raspi_media_player.Api.Requests.{
  Identity, Request, Response, error_response, page_response, Classification, classified,
  unsupported, invalid, Server, client_ip, queue_error, plain,
}
use raspi_media_player.Api.Handlers.{
  get_queue, skip_queue_item, withdraw_skip_vote, remove_queue_item, withdraw_removal_vote,
  reorder_queue, clear_queue,
}

pub record AddQueueRequest : Type 0 where
  pub url : String
  pub title : String
  pub display_name : String

abbrev pub user_of : Option Identity → Option UserRow
user_of none = none
user_of (some identity) = some (record { user_id = identity.user_id; username = identity.username })

unfoldable pub submitted : Result (Db × Snapshot × Item) → Server → Server × Response
submitted (err e) s = (s, queue_error e)
submitted (ok (db, snap, item)) s = (record s { db = db }, page_response 201 (plain snap))

-- The submission of a classified url. The fresh id and the time of the row are arguments.
abbrev pub addition_of : String → String → String → AddQueueRequest → Request → Server → Addition
addition_of id at kind body r s = record {
  id = id;
  now = at;
  source_kind = kind;
  url = trim is_space body.url;
  title = trim is_space body.title;
  display_name = trim is_space body.display_name;
  user = user_of r.identity;
  limit = s.queue_limit;
}

unfoldable pub submit_classified :
    Classification → String → String → AddQueueRequest → Request → Server → Server × Response
unfolding submitted
submit_classified unsupported id at body r s = (s, error_response 422 "unsupported_source")
submit_classified invalid id at body r s = (s, error_response 422 "invalid_url")
submit_classified (classified kind) id at body r s =
    if ltb 64 (byte_length (trim is_space body.display_name))
    then (s, error_response 422 "display_name_too_long")
    else (if ltb 240 (byte_length (trim is_space body.title))
        then (s, error_response 422 "title_too_long")
        else submitted (add_source_titled (addition_of id at kind body r s) s.db) s)

abbrev pub submit_allowed :
    Bool → String → String → Option AddQueueRequest → Request → Server → Server × Response
submit_allowed false id at body r s = (s, error_response 429 "rate_limited")
submit_allowed true id at none r s = (s, error_response 400 "invalid_request")
submit_allowed true id at (some body) r s =
    submit_classified (s.classify (trim is_space body.url)) id at body r s

unfoldable pub add_queue_item :
    String → String → Option AddQueueRequest → Request → Server → Server × Response
unfolding submit_classified
add_queue_item id at body r s =
    let (limiter, allowed) = allow (client_ip r) r.now s.limiter in
    submit_allowed allowed id at body r (record s { limiter = limiter })

-- The requests for the queue, with their path values and bodies.
pub data Endpoint : Type 0 where
  gets_queue clears_queue skips_item withdraws_skip : Endpoint
  removes_item withdraws_removal : String → Endpoint
  reorders_queue : Option (List String) → Endpoint
  adds_item : String → String → Option AddQueueRequest → Endpoint

unfoldable pub handle : Endpoint → Request → Server → Server × Response
handle gets_queue r s = get_queue r s
handle clears_queue r s = clear_queue r s
handle skips_item r s = skip_queue_item r s
handle withdraws_skip r s = withdraw_skip_vote r s
handle (removes_item id) r s = remove_queue_item id r s
handle (withdraws_removal id) r s = withdraw_removal_vote id r s
handle (reorders_queue body) r s = reorder_queue body r s
handle (adds_item id at body) r s = add_queue_item id at body r s
