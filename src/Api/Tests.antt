-- ===== src/Api/Tests.antt =====
-- A server with three items and requests of a guest, and the theorems on the handlers applied to them.
use raspi_media_player.Base.{
  pos, ◌≤◌, ◌≡◌, ◌⊎◌, refl, true, false, not, ◌||◌, none, some, [], ◌∷◌, differ, atoi, arith,
}
use raspi_media_player.Queue.Rows.{queued, Item}
use raspi_media_player.Queue.Table.{order_by_position, compact}
use raspi_media_player.Queue.Store.{snapshot, item_of, skip}
use raspi_media_player.Queue.Calls.{IsWellFormed, run}
use raspi_media_player.Queue.Tests.{row, jukebox, jukebox-IsWellFormed, skipped_once}
use raspi_media_player.Voting.Policy.{policy}
use raspi_media_player.Voting.Manager.{new_vote_manager, prune}
use raspi_media_player.Voting.Tests.{elections}
use raspi_media_player.Api.Limiter.{RateLimiter, allow, allowed, least, ended, allowed-least}
use raspi_media_player.Api.Requests.{
  Request, Server, classified, required_revision, expects, is_admin, listener_id,
}
use raspi_media_player.Api.Handlers.{
  may_remove, remove_queue_item, vote_to_skip, skip_queue_item, withdraw_skip_vote,
}
use raspi_media_player.Api.Submission.{removes_item, skips_item, adds_item, handle, AddQueueRequest}
use raspi_media_player.Api.Effects.{is_addition}
use raspi_media_player.Api.Service.{serve, serve-IsWellFormed, handle-guarded}
use raspi_media_player.Api.Permissions.{
  removal_vote, skip_vote_of, remove_queue_item-permitted, vote_to_skip-permitted,
  withdraw_skip_vote-decides, skip_queue_item-alone,
}

abbrev pub limiter : RateLimiter
limiter = record { limit = 2; window = 100; clients = [] }

-- The first window of the client has used up the limit.
abbrev worn : RateLimiter
worn = record limiter { clients = ("10.0.0.5", record { start = 3; count = 2 }) ∷ [] }

still_closed : allowed "10.0.0.5" (50 ∷ 102 ∷ []) worn ≡ 0
unfolding allowed allow
still_closed = refl

allowed-least_example : allowed "10.0.0.5" (103 ∷ 105 ∷ 109 ∷ 120 ∷ []) worn ≡ least 2 4
allowed-least_example =
    allowed-least "10.0.0.5" 103 (105 ∷ 109 ∷ 120 ∷ []) worn
      (ended (record { start = 3; count = 2 }) refl (omega arith))
      (omega arith, (omega arith, (omega arith, tt)))
      (omega arith, (omega arith, (omega arith, tt)))

abbrev pub server : Server
server = record {
  db = jukebox;
  votes = new_vote_manager;
  limiter = limiter;
  settings = elections;
  queue_limit = 10;
  classify = λ url. classified "direct";
}

abbrev pub guest : Request
guest = record {
  identity = none;
  listener_cookie = some "c0ffee";
  remote_addr = "10.0.0.5:4000";
  remote_host = some "10.0.0.5";
  if_match = "\"7\"";
  now = 1_000;
}

abbrev song : AddQueueRequest
song = record { url = " http://host/d "; title = ""; display_name = "guest" }

serve-IsWellFormed_example :
    IsWellFormed
      (serve
        ((skips_item, guest)
          ∷ (removes_item "b", guest)
          ∷ (adds_item "d" "now" (some song), guest)
          ∷ [])
        server).db
serve-IsWellFormed_example =
    serve-IsWellFormed
      ((skips_item, guest)
        ∷ (removes_item "b", guest)
        ∷ (adds_item "d" "now" (some song), guest)
        ∷ [])
      server jukebox-IsWellFormed

handle-guarded_example :
    ((handle (removes_item "b") guest server).0.db ≡ jukebox)
    ⊎ ((required_revision "\"7\"" ≡ expects 7) ⊎ (is_addition (removes_item "b") ≡ true))
handle-guarded_example = handle-guarded (removes_item "b") guest server

abbrev second : Item
second = item_of jukebox (row "b" "http://host/b" (pos 1) queued)

remove_queue_item-permitted_example :
    ((remove_queue_item "b" guest server).0.db ≡ jukebox)
    ⊎ ((may_remove (policy elections) none second ≡ true)
        ⊎ ((removal_vote "b" guest server).required ≤ (removal_vote "b" guest server).votes))
unfolding snapshot item_of order_by_position
remove_queue_item-permitted_example = remove_queue_item-permitted "b" guest server second refl

vote_to_skip-permitted_example :
    ((vote_to_skip true guest server).0.db ≡ jukebox)
    ⊎ ((not (policy elections).enabled || is_admin none ≡ true)
        ⊎ ((true ≡ true)
            × ((skip_vote_of true guest server).required ≤ (skip_vote_of true guest server).votes)))
vote_to_skip-permitted_example = vote_to_skip-permitted true guest server

withdraw_skip_vote-decides_example :
    ((not (policy elections).enabled || is_admin none ≡ false)
      × ((withdraw_skip_vote guest server).0.db ≡ jukebox))
    ⊎ ((not (policy elections).enabled || is_admin none ≡ true)
        × (withdraw_skip_vote guest server ≡ skip_queue_item guest server))
withdraw_skip_vote-decides_example = withdraw_skip_vote-decides guest server

skip_queue_item-alone_example : (skip_queue_item guest server).0.db ≡ skipped_once
unfolding required_revision atoi policy snapshot order_by_position item_of prune listener_id run
    skip compact
skip_queue_item-alone_example =
    skip_queue_item-alone guest server skipped_once (snapshot skipped_once) refl refl refl
      (differ refl) refl refl
