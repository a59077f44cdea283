-- ===== src/Api/Handlers.antt =====
-- internal/app/queue.go and internal/app/voting.go: the handlers of the queue. A handler is one step
-- of the server, with one reading of the clock; what it logs is left out.
use raspi_media_player.Base.{
  ℕ, String, Bool, true, false, not, Option, none, some, List, [], ◌∷◌, ◌&&◌, ◌||◌, same, leb, ltb,
  if◌then◌else◌,
}
use raspi_media_player.Queue.Rows.{Db, Item, Snapshot, Result, ok, err}
use raspi_media_player.Queue.Store.{snapshot, remove, clear, skip, reorder}
use raspi_media_player.Voting.Policy.{VotePolicy, policy}
use raspi_media_player.Voting.Manager.{VoteManager, SkipVoteState, set_vote}
use raspi_media_player.Voting.Manager as Votes
use raspi_media_player.Api.Requests.{
  Identity, Request, Response, error_response, page_response, Server, listener_id, Required,
  refused, expects, required_revision, queue_error, skip_target, skip_key, removal_key, is_admin,
  owns, attach_vote, plain,
}

abbrev pub with_votes : VoteManager → Server → Server
with_votes m s = record s { votes = m }

-- The snapshot with the votes of the listener, as the response.
unfoldable pub reply : ℕ → Request → Snapshot → Server → Server × Response
reply status r snap s =
    let (m, page) = attach_vote (policy s.settings) r snap s.votes in
    (with_votes m s, page_response status page)

unfoldable pub get_queue : Request → Server → Server × Response
unfolding reply
get_queue r s = reply 200 r (snapshot s.db) s

-- After a skip: the vote is cleared, and the listener's votes are attached where it voted.
unfoldable pub skipped :
    Bool → Result (Db × Snapshot) → String → Request → Server → Server × Response
unfolding reply
skipped voted (err e) target r s = (s, queue_error e)
skipped voted (ok (db, snap)) target r s =
    let cleared = record s { db = db; votes = Votes.clear (skip_key target) s.votes } in
    if voted then reply 200 r snap cleared else (cleared, page_response 200 (plain snap))

-- The vote on the current item, and the skip once it has enough.
unfoldable pub vote_on_skip : ℕ → Bool → String → Request → Server → Server × Response
unfolding skipped
vote_on_skip revision vote target r s =
    let (m, v) =
      set_vote (policy s.settings) (skip_key target) target (listener_id r) vote r.now r.now r.now
        s.votes in
    let voted = with_votes m s in
    if vote && leb v.required v.votes
    then skipped true (skip revision s.db) target r voted
    else (voted, page_response 200 (record (plain (snapshot s.db)) { skip_vote = some v }))

abbrev pub skip_at : Required → Bool → Request → Server → Server × Response
skip_at (refused response) vote r s = (s, response)
skip_at (expects revision) vote r s =
    let target = skip_target (snapshot s.db) in
    if not (policy s.settings).enabled || is_admin r.identity
    then skipped false (skip revision s.db) target r s
    else (if same target ""
        then (s, error_response 409 "nothing_playing")
        else vote_on_skip revision vote target r s)

unfoldable pub vote_to_skip : Bool → Request → Server → Server × Response
unfolding vote_on_skip
vote_to_skip vote r s = skip_at (required_revision r.if_match) vote r s

unfoldable pub skip_queue_item : Request → Server → Server × Response
unfolding vote_to_skip
skip_queue_item = vote_to_skip true

unfoldable pub withdraw_skip_vote : Request → Server → Server × Response
unfolding vote_to_skip
withdraw_skip_vote = vote_to_skip false

abbrev pub find_item : String → List Item → Option Item
find_item id [] = none
find_item id (item ∷ items) =
    let rest = find_item id items in if same item.id id then some item else rest

unfoldable pub removed : Result (Db × Snapshot) → String → Request → Server → Server × Response
unfolding reply
removed (err e) id r s = (s, queue_error e)
removed (ok (db, snap)) id r s =
    reply 200 r snap (record s { db = db; votes = Votes.clear (removal_key id) s.votes })

-- Who may remove the item without a vote.
abbrev pub may_remove : VotePolicy → Option Identity → Item → Bool
may_remove p identity target = not p.enabled || owns identity target || is_admin identity

unfoldable pub vote_on_removal : ℕ → Item → String → Request → Server → Server × Response
unfolding removed
vote_on_removal revision target id r s =
    let (m, v) =
      set_vote (policy s.settings) (removal_key id) id (listener_id r) true r.now r.now r.now
        s.votes in
    let voted = with_votes m s in
    if ltb v.votes v.required
    then reply 200 r (snapshot s.db) voted
    else removed (remove id revision s.db) id r voted

unfoldable pub remove_at : Required → Option Item → String → Request → Server → Server × Response
unfolding vote_on_removal
remove_at (refused response) target id r s = (s, response)
remove_at (expects revision) none id r s = (s, error_response 404 "queue_item_not_found")
remove_at (expects revision) (some target) id r s =
    if may_remove (policy s.settings) r.identity target
    then removed (remove id revision s.db) id r s
    else vote_on_removal revision target id r s

unfoldable pub remove_queue_item : String → Request → Server → Server × Response
unfolding remove_at
remove_queue_item id r s =
    remove_at (required_revision r.if_match) (find_item id (snapshot s.db).items) id r s

unfoldable pub withdraw_at : Required → Option Item → String → Request → Server → Server × Response
unfolding reply
withdraw_at (refused response) target id r s = (s, response)
withdraw_at (expects revision) none id r s = (s, error_response 404 "queue_item_not_found")
withdraw_at (expects revision) (some target) id r s =
    let (m, v) =
      set_vote (policy s.settings) (removal_key id) id (listener_id r) false r.now r.now r.now
        s.votes in
    reply 200 r (snapshot s.db) (with_votes m s)

unfoldable pub withdraw_removal_vote : String → Request → Server → Server × Response
unfolding withdraw_at
withdraw_removal_vote id r s =
    withdraw_at (required_revision r.if_match) (find_item id (snapshot s.db).items) id r s

-- The response to a change of the whole queue.
unfoldable pub changed_queue : Result (Db × Snapshot) → Server → Server × Response
changed_queue (err e) s = (s, queue_error e)
changed_queue (ok (db, snap)) s = (record s { db = db }, page_response 200 (plain snap))

-- The body is what `decodeJSON` answers, `none` on its error.
abbrev pub reorder_at : Required → Option (List String) → Server → Server × Response
reorder_at (refused response) body s = (s, response)
reorder_at (expects revision) none s = (s, error_response 400 "invalid_request")
reorder_at (expects revision) (some order) s = changed_queue (reorder order revision s.db) s

unfoldable pub reorder_queue : Option (List String) → Request → Server → Server × Response
unfolding changed_queue
reorder_queue body r s = reorder_at (required_revision r.if_match) body s

abbrev pub clear_at : Required → Server → Server × Response
clear_at (refused response) s = (s, response)
clear_at (expects revision) s = changed_queue (clear revision s.db) s

unfoldable pub clear_queue : Request → Server → Server × Response
unfolding changed_queue
clear_queue r s = clear_at (required_revision r.if_match) s
