-- ===== src/Api/Permissions.antt =====
-- internal/app/queue.go and internal/app/voting.go: who can remove or skip an item, and when.
use raspi_media_player.Base.{
  ℕ, ◌≤◌, ◌≡◌, refl, String, Bool, true, false, not, some, ◌&&◌, ◌||◌, same, leb, ltb, ◌≢◌, [],
  same_ne, Bool-cases, inl, inr, ◌⊎◌, arith,
}
use raspi_media_player.Queue.Rows.{Db, Item, Snapshot, ok}
use raspi_media_player.Queue.Store.{snapshot, skip}
use raspi_media_player.Voting.Policy.{policy}
use raspi_media_player.Voting.Thresholds.{policy-IsInRange}
use raspi_media_player.Voting.Ballots.{others, set_vote-alone}
use raspi_media_player.Voting.Manager.{SkipVoteState, set_vote}
use raspi_media_player.Api.Requests.{
  Request, Server, listener_id, Required, refused, expects, required_revision, skip_target,
  skip_key, removal_key, is_admin,
}
use raspi_media_player.Api.Handlers.{
  reply, skipped, skip_queue_item, withdraw_skip_vote, vote_on_skip, skip_at, vote_to_skip,
  find_item, may_remove, vote_on_removal, remove_at, remove_queue_item,
}

-- The votes on removing an item, with that of the request.
abbrev pub removal_vote : String → Request → Server → SkipVoteState
removal_vote id r s =
    (set_vote (policy s.settings) (removal_key id) id (listener_id r) true r.now r.now r.now
      s.votes).1

-- The votes on skipping the current item, with that of the request.
abbrev pub skip_vote_of : Bool → Request → Server → SkipVoteState
skip_vote_of vote r s =
    let target = skip_target (snapshot s.db) in
    (set_vote (policy s.settings) (skip_key target) target (listener_id r) vote r.now r.now r.now
      s.votes).1

-- A removal changes the database only if the listener may remove the item without a vote, since it
-- is an administrator or submitted the item or voting is off, or if with its vote the required
-- number is reached.
pub remove_queue_item-permitted :
    (id : String) (r : Request) (s : Server) (target : Item)
    → find_item id (snapshot s.db).items ≡ some target
    → ((remove_queue_item id r s).0.db ≡ s.db)
      ⊎ ((may_remove (policy s.settings) r.identity target ≡ true)
          ⊎ ((removal_vote id r s).required ≤ (removal_vote id r s).votes))
unfolding remove_queue_item remove_at vote_on_removal reply
remove_queue_item-permitted id r s target found = rw found (go (required_revision r.if_match))
  where
    go :
        (x : Required)
        → ((remove_at x (some target) id r s).0.db ≡ s.db)
          ⊎ ((may_remove (policy s.settings) r.identity target ≡ true)
              ⊎ ((removal_vote id r s).required ≤ (removal_vote id r s).votes))
    go (refused response) = inl refl
    go (expects revision) = elim (Bool-cases (may_remove (policy s.settings) r.identity target)) [
      | inl e ↦ inr (inl e)
      | inr e ↦ elim (Bool-cases (ltb (removal_vote id r s).votes (removal_vote id r s).required)) [
        | inl f ↦ inl (rw (e, f) refl)
        | inr f ↦ inr (inr (ground arith))
      ]
    ]

-- A vote to skip, or its withdrawal, changes the database only if voting is off or the listener is an
-- administrator, or if it is a vote and with it the required number is reached.
pub vote_to_skip-permitted :
    (vote : Bool) (r : Request) (s : Server)
    → ((vote_to_skip vote r s).0.db ≡ s.db)
      ⊎ ((not (policy s.settings).enabled || is_admin r.identity ≡ true)
          ⊎ ((vote ≡ true) × ((skip_vote_of vote r s).required ≤ (skip_vote_of vote r s).votes)))
unfolding vote_to_skip vote_on_skip
vote_to_skip-permitted vote r s = go (required_revision r.if_match)
  where
    target : String
    target = skip_target (snapshot s.db)

    go :
        (x : Required)
        → ((skip_at x vote r s).0.db ≡ s.db)
          ⊎ ((not (policy s.settings).enabled || is_admin r.identity ≡ true)
              ⊎ ((vote ≡ true)
                  × ((skip_vote_of vote r s).required ≤ (skip_vote_of vote r s).votes)))
    go (refused response) = inl refl
    go (expects revision) =
        elim (Bool-cases (not (policy s.settings).enabled || is_admin r.identity)) [
          | inl e ↦ inr (inl e)
          | inr e ↦ elim (Bool-cases (same target "")) [
            | inl f ↦ inl (rw (e, f) refl)
            | inr f ↦
                elim (Bool-cases
                  (vote && leb (skip_vote_of vote r s).required (skip_vote_of vote r s).votes)) [
                    | inl g ↦ inr (inr (ground arith))
                    | inr g ↦ inl (rw (e, f, g) refl)
                  ]
          ]
        ]

-- Where voting is on and the listener is no administrator, withdrawing a vote to skip leaves the
-- database as it is; otherwise it does exactly what a vote to skip does.
pub withdraw_skip_vote-decides :
    (r : Request) (s : Server)
    → ((not (policy s.settings).enabled || is_admin r.identity ≡ false)
        × ((withdraw_skip_vote r s).0.db ≡ s.db))
      ⊎ ((not (policy s.settings).enabled || is_admin r.identity ≡ true)
          × (withdraw_skip_vote r s ≡ skip_queue_item r s))
unfolding withdraw_skip_vote skip_queue_item vote_to_skip vote_on_skip
withdraw_skip_vote-decides r s =
    elim (Bool-cases (not (policy s.settings).enabled || is_admin r.identity)) [
      | inl e ↦ inr (e, same_answer e (required_revision r.if_match))
      | inr e ↦ inl (e, kept e (required_revision r.if_match))
    ]
  where
    same_answer :
        not (policy s.settings).enabled || is_admin r.identity ≡ true
        → (x : Required) → skip_at x false r s ≡ skip_at x true r s
    same_answer e (refused response) = refl
    same_answer e (expects revision) = rw e refl

    kept :
        not (policy s.settings).enabled || is_admin r.identity ≡ false
        → (x : Required) → (skip_at x false r s).0.db ≡ s.db
    kept e (refused response) = refl
    kept e (expects revision) = elim (Bool-cases (same (skip_target (snapshot s.db)) "")) [
      | inl f ↦ rw (e, f) refl
      | inr f ↦ rw (e, f) refl
    ]

-- A listener who is no administrator, and the only one that was active lately, skips with one vote:
-- if voting is on, something is there to skip, its header names the current revision, and the store
-- skips at that revision, the database is then the one that the store returns.
pub skip_queue_item-alone :
    (r : Request) (s : Server) (db : Db) (snap : Snapshot)
    → required_revision r.if_match ≡ expects s.db.state.revision
    → (policy s.settings).enabled ≡ true
    → is_admin r.identity ≡ false
    → skip_target (snapshot s.db) ≢ ""
    → others (policy s.settings).active_window r.now (listener_id r) s.votes.active ≡ []
    → skip s.db.state.revision s.db ≡ ok (db, snap)
    → (skip_queue_item r s).0.db ≡ db
unfolding skip_queue_item vote_to_skip vote_on_skip skipped reply
skip_queue_item-alone r s db snap revision enabled plain_user target alone skips =
    let item = skip_target (snapshot s.db) in
    let now = r.now in
    let range = policy-IsInRange s.settings in
    let enough =
      set_vote-alone (policy s.settings) (skip_key item) item (listener_id r) now now now s.votes
        enabled target range.percent_high (omega arith) alone in
    rw (revision, meets enough.1, skips, same_ne item "" target, enabled, plain_user) refl
  where
    meets : {a b : ℕ} → a ≤ b → leb a b ≡ true
    meets h = ground arith
