-- ===== src/Api/Effects.antt =====
-- internal/app/queue.go and internal/app/voting.go: what a request does to the database.
use raspi_media_player.Base.{
  ℕ, ◌≡◌, refl, ap, subst, String, Bool, true, false, not, Option, none, some, List, ◌&&◌, ◌||◌,
  same, ltb, if◌then◌else◌, trim, is_space, byte_length,
}
use raspi_media_player.Queue.Rows.{Db, Item, Snapshot, Result, ok, err}
use raspi_media_player.Queue.Store.{
  snapshot, remove, clear, skip, reorder, Addition, add_source_titled,
}
use raspi_media_player.Queue.Admission.{added_database}
use raspi_media_player.Queue.Calls.{Call, adds, removes, clears, skips, reorders, database_of, run}
use raspi_media_player.Voting.Policy.{policy}
use raspi_media_player.Voting.Manager.{VoteManager, set_vote}
use raspi_media_player.Api.Limiter.{allow}
use raspi_media_player.Api.Requests.{
  Request, Response, Classification, classified, unsupported, invalid, Server, listener_id,
  client_ip, Required, refused, expects, required_revision, skip_target, skip_key, removal_key,
  is_admin,
}
use raspi_media_player.Api.Handlers.{
  with_votes, reply, get_queue, skipped, vote_on_skip, skip_at, vote_to_skip, skip_queue_item,
  withdraw_skip_vote, find_item, removed, may_remove, vote_on_removal, remove_at, remove_queue_item,
  withdraw_at, withdraw_removal_vote, changed_queue, reorder_at, reorder_queue, clear_at,
  clear_queue,
}
use raspi_media_player.Api.Submission.{
  AddQueueRequest, submitted, addition_of, submit_classified, submit_allowed, add_queue_item,
  Endpoint, gets_queue, clears_queue, skips_item, withdraws_skip, removes_item, withdraws_removal,
  reorders_queue, adds_item, handle,
}

abbrev pub is_addition : Endpoint → Bool
is_addition (adds_item id at body) = true
is_addition _ = false

-- The calls that a request may lead to: an addition, or a change at the revision of its header.
abbrev pub Sent : Endpoint → Request → Call → Type 0
Sent e r (adds a) = is_addition e ≡ true
Sent e r (removes id revision) = required_revision r.if_match ≡ expects revision
Sent e r (clears revision) = required_revision r.if_match ≡ expects revision
Sent e r (skips revision) = required_revision r.if_match ≡ expects revision
Sent e r (reorders order revision) = required_revision r.if_match ≡ expects revision
Sent e r _ = ⊥

-- The database is as it was, or one call of the store took effect.
pub data Changes (e : Endpoint) (r : Request) (db db' : Db) : Type 0 where
  unchanged : db' ≡ db → Changes e r db db'
  called : (c : Call) → Sent e r c → run c db ≡ ok db' → Changes e r db db'

-- A test that decides between two outcomes.
either-Changes :
    {e : Endpoint} {r : Request} (b : Bool) {db : Db} (x y : Server × Response)
    → Changes e r db x.0.db
    → Changes e r db y.0.db
    → Changes e r db (if b then x else y).0.db
either-Changes true x y v w = v
either-Changes false x y v w = w

skipped-Changes :
    (e : Endpoint) (voted : Bool) (revision : ℕ) (target : String) (r : Request) (s : Server)
    → required_revision r.if_match ≡ expects revision
    → Changes e r s.db (skipped voted (skip revision s.db) target r s).0.db
unfolding skipped reply run
skipped-Changes e voted revision target r s sent = go (skip revision s.db) refl
  where
    go :
        (x : Result (Db × Snapshot))
        → skip revision s.db ≡ x
        → Changes e r s.db (skipped voted x target r s).0.db
    go (err x) h = unchanged refl
    go (ok (db, snap)) h =
        either-Changes voted _ _ (called (skips revision) sent (ap database_of h))
          (called (skips revision) sent (ap database_of h))

removed-Changes :
    (e : Endpoint) (revision : ℕ) (id : String) (r : Request) (s : Server)
    → required_revision r.if_match ≡ expects revision
    → Changes e r s.db (removed (remove id revision s.db) id r s).0.db
unfolding removed reply run
removed-Changes e revision id r s sent = go (remove id revision s.db) refl
  where
    go :
        (x : Result (Db × Snapshot))
        → remove id revision s.db ≡ x
        → Changes e r s.db (removed x id r s).0.db
    go (err x) h = unchanged refl
    go (ok (db, snap)) h = called (removes id revision) sent (ap database_of h)

vote_to_skip-Changes :
    (e : Endpoint) (vote : Bool) (r : Request) (s : Server)
    → Changes e r s.db (vote_to_skip vote r s).0.db
unfolding vote_to_skip vote_on_skip
vote_to_skip-Changes e vote r s = go (required_revision r.if_match) refl
  where
    go :
        (x : Required)
        → required_revision r.if_match ≡ x
        → Changes e r s.db (skip_at x vote r s).0.db
    go (refused response) h = unchanged refl
    go (expects revision) sent =
        let target = skip_target (snapshot s.db) in
        let m : VoteManager =
          (set_vote (policy s.settings) (skip_key target) target (listener_id r) vote r.now r.now
            r.now s.votes).0 in
        either-Changes (not (policy s.settings).enabled || is_admin r.identity) _ _
          (skipped-Changes e false revision target r s sent)
          (either-Changes (same target "") _ _ (unchanged refl) (
            either-Changes (vote && _) _ _
              (skipped-Changes e true revision target r (with_votes m s) sent) (unchanged refl)))

remove_queue_item-Changes :
    (e : Endpoint) (id : String) (r : Request) (s : Server)
    → Changes e r s.db (remove_queue_item id r s).0.db
unfolding remove_queue_item remove_at vote_on_removal reply
remove_queue_item-Changes e id r s =
    go (required_revision r.if_match) (find_item id (snapshot s.db).items) refl
  where
    go :
        (x : Required) (t : Option Item)
        → required_revision r.if_match ≡ x
        → Changes e r s.db (remove_at x t id r s).0.db
    go (refused response) t h = unchanged refl
    go (expects revision) none h = unchanged refl
    go (expects revision) (some target) sent =
        let m : VoteManager =
          (set_vote (policy s.settings) (removal_key id) id (listener_id r) true r.now r.now r.now
            s.votes).0 in
        either-Changes (may_remove (policy s.settings) r.identity target) _ _
          (removed-Changes e revision id r s sent)
          (either-Changes (ltb _ _) _ _ (unchanged refl)
            (removed-Changes e revision id r (with_votes m s) sent))

withdraw_removal_vote-db :
    (id : String) (r : Request) (s : Server) → (withdraw_removal_vote id r s).0.db ≡ s.db
unfolding withdraw_removal_vote withdraw_at reply
withdraw_removal_vote-db id r s =
    go (required_revision r.if_match) (find_item id (snapshot s.db).items)
  where
    go : (x : Required) (t : Option Item) → (withdraw_at x t id r s).0.db ≡ s.db
    go (refused response) t = refl
    go (expects revision) none = refl
    go (expects revision) (some target) = refl

-- A call of the store that is a change of the whole queue.
changed_queue-Changes :
    (e : Endpoint) (r : Request) (c : Call) (x : Result (Db × Snapshot)) (s : Server)
    → Sent e r c
    → run c s.db ≡ database_of x
    → Changes e r s.db (changed_queue x s).0.db
unfolding changed_queue
changed_queue-Changes e r c (err x) s sent h = unchanged refl
changed_queue-Changes e r c (ok (db, snap)) s sent h = called c sent h

reorder_queue-Changes :
    (e : Endpoint) (body : Option (List String)) (r : Request) (s : Server)
    → Changes e r s.db (reorder_queue body r s).0.db
unfolding reorder_queue run
reorder_queue-Changes e body r s = go (required_revision r.if_match) body refl
  where
    go :
        (x : Required) (b : Option (List String))
        → required_revision r.if_match ≡ x
        → Changes e r s.db (reorder_at x b s).0.db
    go (refused response) b h = unchanged refl
    go (expects revision) none h = unchanged refl
    go (expects revision) (some order) sent =
        changed_queue-Changes e r (reorders order revision) (reorder order revision s.db) s sent
          refl

clear_queue-Changes :
    (e : Endpoint) (r : Request) (s : Server) → Changes e r s.db (clear_queue r s).0.db
unfolding clear_queue run
clear_queue-Changes e r s = go (required_revision r.if_match) refl
  where
    go : (x : Required) → required_revision r.if_match ≡ x → Changes e r s.db (clear_at x s).0.db
    go (refused response) h = unchanged refl
    go (expects revision) sent =
        changed_queue-Changes e r (clears revision) (clear revision s.db) s sent refl

submitted-Changes :
    (e : Endpoint) (r : Request) (a : Addition) (s : Server)
    → is_addition e ≡ true
    → Changes e r s.db (submitted (add_source_titled a s.db) s).0.db
unfolding submitted run
submitted-Changes e r a s adding = go (add_source_titled a s.db) refl
  where
    go :
        (x : Result (Db × Snapshot × Item))
        → add_source_titled a s.db ≡ x
        → Changes e r s.db (submitted x s).0.db
    go (err x) h = unchanged refl
    go (ok (db, snap, item)) h = called (adds a) adding (ap added_database h)

add_queue_item-Changes :
    (id at : String) (body : Option AddQueueRequest) (r : Request) (s : Server)
    → Changes (adds_item id at body) r s.db (add_queue_item id at body r s).0.db
unfolding add_queue_item submit_classified
add_queue_item-Changes id at body r s =
    let answer = allow (client_ip r) r.now s.limiter in
    go answer.1 body (record s { limiter = answer.0 }) refl
  where
    kinds :
        (x : Classification) (b : AddQueueRequest) (t : Server)
        → Changes (adds_item id at body) r t.db (submit_classified x id at b r t).0.db
    kinds unsupported b t = unchanged refl
    kinds invalid b t = unchanged refl
    kinds (classified kind) b t =
        either-Changes (ltb 64 (byte_length (trim is_space b.display_name))) _ _ (unchanged refl) (
          either-Changes (ltb 240 (byte_length (trim is_space b.title))) _ _ (unchanged refl)
            (submitted-Changes (adds_item id at body) r (addition_of id at kind b r t) t refl))

    go :
        (allowed : Bool) (b : Option AddQueueRequest) (t : Server)
        → t.db ≡ s.db
        → Changes (adds_item id at body) r s.db (submit_allowed allowed id at b r t).0.db
    go false b t h = unchanged h
    go true none t h = unchanged h
    go true (some b) t h =
        subst
          (λ db. Changes (adds_item id at body) r db (submit_allowed true id at (some b) r t).0.db)
          h (kinds (t.classify (trim is_space b.url)) b t)

-- Each request leaves the database as it is, or one call of the store takes effect: an addition, or
-- a change at the revision of the header.
pub handle-Changes :
    (e : Endpoint) (r : Request) (s : Server) → Changes e r s.db (handle e r s).0.db
unfolding handle skip_queue_item withdraw_skip_vote get_queue reply
handle-Changes gets_queue r s = unchanged refl
handle-Changes clears_queue r s = clear_queue-Changes clears_queue r s
handle-Changes skips_item r s = vote_to_skip-Changes skips_item true r s
handle-Changes withdraws_skip r s = vote_to_skip-Changes withdraws_skip false r s
handle-Changes (removes_item id) r s = remove_queue_item-Changes (removes_item id) id r s
handle-Changes (withdraws_removal id) r s = unchanged (withdraw_removal_vote-db id r s)
handle-Changes (reorders_queue body) r s = reorder_queue-Changes (reorders_queue body) body r s
handle-Changes (adds_item id at body) r s = add_queue_item-Changes id at body r s
