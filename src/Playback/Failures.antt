-- ===== src/Playback/Failures.antt =====
-- internal/playback/controller.go: what a failure of the player leads to.
use raspi_media_player.Base.{
  ℕ, ◌+◌, ◌≤◌, ◌<◌, String, Bool, true, false, ◌≡◌, ◌≢◌, refl, ap, ◌∙◌, Option, none, some, ltb,
  map, count, same, ◌&&◌, ◌==◌, if◌then◌else◌, insert, ◌⊎◌, Bool-cases, inl, inr, arith,
  lookup-insert_self, lookup-delete_self, same_ne,
}
use raspi_media_player.Queue.Rows.{
  Row, StateRow, Db, Result, ok, err, Status, ItemStatus, queued, failed, retrying, idle,
}
use raspi_media_player.Queue.Playing.{is_current, is_current_item, finish_current, retry_current}
use raspi_media_player.Playback.Model.{PlayerState, System, emit, attempt, history_finished}
use raspi_media_player.Playback.Events.{
  on_failed, retry_item, fail_item, attempts_of, finish_history, failure_of, half_second, or_zero,
  drop_retries,
}

-- The rows after the failure: the current row with the id has the status and the message.
abbrev pub marked : ItemStatus → String → String → Row → Row
marked status id failure r =
    if same r.id id && is_current r
    then record r { playback_status = status; playback_error = failure }
    else r

-- No item is current, and the playback has a status and the message.
abbrev pub halted : Status → String → StateRow → StateRow
halted status failure s = record {
  revision = s.revision;
  current_item_id = none;
  playback = record {
    status = status;
    title = "";
    position_seconds = 0;
    duration_seconds = 0;
    paused = false;
    buffering = false;
    volume = s.playback.volume;
    error = failure;
  };
}

-- The one current item with the id waits again, with the message; an item that is not the current one of the
-- queue any more leaves the database as it was.
pub data Requeues (id failure : String) (db db' : Db) : Type 0 where
  requeues :
      count (is_current_item id) db.items ≡ 1
      → db'.items ≡ map (marked queued id failure) db.items
      → db'.state ≡ halted retrying failure db.state
      → Requeues id failure db db'
  lost : count (is_current_item id) db.items ≢ 1 → db' ≡ db → Requeues id failure db db'

-- The one current item with the id stays as failed, with the message, and the revision is one higher; an item
-- that is not the current one of the queue any more leaves the database as it was.
pub data Fails (id failure : String) (db db' : Db) : Type 0 where
  fails :
      count (is_current_item id) db.items ≡ 1
      → db'.items ≡ map (marked failed id failure) db.items
      → db'.state ≡ record (halted idle failure db.state) { revision = db.state.revision + 1 }
      → Fails id failure db db'
  gone : count (is_current_item id) db.items ≢ 1 → db' ≡ db → Fails id failure db db'

-- An item that fails with attempts left.
pub record IsRetried (s t : System) (now : ℕ) (id failure : String) : Type 0 where
  pub requeued : Requeues id failure s.db t.db
  pub counted : attempts_of (record t.controller { loaded_id = id }) ≡ attempts_of s.controller + 1
  pub unloaded : t.controller.loaded_id ≡ ""
  pub silent : t.effects ≡ s.effects
  pub delayed : t.controller.retry_after ≡ some (now + half_second)

-- An item that failed for good.
pub record IsFailed (s t : System) (id failure : String) : Type 0 where
  pub finished : Fails id failure s.db t.db
  pub forgotten : attempts_of (record t.controller { loaded_id = id }) ≡ 0
  pub unloaded : t.controller.loaded_id ≡ ""

same_number : (n : ℕ) → n ≢ 1 → (n == 1) ≡ false
same_number n h = ground arith

module _ (id failure : String) (s t : System) (e : t.db ≡ s.db) where
  retry-Requeues : Requeues id failure s.db (attempt (retry_current id (some failure) s.db) t).db
  unfolding retry_current
  retry-Requeues = elim (Bool-cases (count (is_current_item id) s.db.items == 1)) [
    | inl one ↦ rw one (requeues (ground arith) refl refl)
    | inr other ↦ rw other (lost (ground arith) e)
  ]

  finish-Fails : Fails id failure s.db (attempt (finish_current id (some failure) s.db) t).db
  unfolding finish_current
  finish-Fails = elim (Bool-cases (count (is_current_item id) s.db.items == 1)) [
    | inl one ↦ rw one (fails (ground arith) refl refl)
    | inr other ↦ rw other (gone (ground arith) e)
  ]

attempt-rest :
    (r : Result Db) (s : System)
    → ((attempt r s).controller ≡ s.controller) × ((attempt r s).effects ≡ s.effects)
attempt-rest (ok db) s = (refl, refl)
attempt-rest (err x) s = (refl, refl)

retry_item-IsRetried :
    (now : ℕ) (failure : String) (s : System)
    → IsRetried s (retry_item now failure s) now s.controller.loaded_id failure
unfolding retry_item
retry_item-IsRetried now failure s =
    let c = s.controller in
    let again : System = record s {
      controller = record c {
        retries = insert c.loaded_id (attempts_of c + 1) c.retries;
        loaded_id = "";
        retry_after = some (now + half_second);
      };
    } in
    let r = retry_current c.loaded_id (some failure) s.db in
    let (kept, silent) = attempt-rest r again in
    record {
      requeued = retry-Requeues c.loaded_id failure s again refl;
      counted =
          ap (λ d. attempts_of (record d { loaded_id = c.loaded_id })) kept
          ∙ ap or_zero (lookup-insert_self c.loaded_id (attempts_of c + 1) c.retries);
      unloaded = ap (λ d. d.loaded_id) kept;
      silent = silent;
      delayed = ap (λ d. d.retry_after) kept;
    }

finish_history-rest :
    (title outcome : String) (failure : Option String) (s : System)
    → ((finish_history title outcome failure s).db ≡ s.db)
      × ((finish_history title outcome failure s).controller ≡ s.controller)
finish_history-rest title outcome failure s = told s.controller.has_history
  where
    told :
        (b : Bool)
        → let e = history_finished s.controller.loaded_id title outcome failure in
          ((if b then emit e s else s).db ≡ s.db)
          × ((if b then emit e s else s).controller ≡ s.controller)
    told true = (refl, refl)
    told false = (refl, refl)

fail_item-IsFailed :
    (title failure : String) (s : System)
    → IsFailed s (fail_item title failure s) s.controller.loaded_id failure
unfolding fail_item
fail_item-IsFailed title failure s =
    let c = s.controller in
    let told = finish_history title "failed" (some failure) (drop_retries s) in
    let (kept_db, kept) = finish_history-rest title "failed" (some failure) (drop_retries s) in
    let r = finish_current c.loaded_id (some failure) s.db in
    record {
      finished = finish-Fails c.loaded_id failure s told kept_db;
      forgotten =
          ap (λ d. attempts_of (record d { loaded_id = c.loaded_id }))
            ((attempt-rest r told).0 ∙ kept)
          ∙ ap or_zero (lookup-delete_self c.loaded_id c.retries);
      unloaded = refl;
    }

-- When the player fails on the loaded item, either attempts are left: the item, where it is the current one
-- of the queue, is queued again with the message, and one more attempt is counted, nothing is loaded,
-- nothing is called, and a pause of half a second follows; or none is left: the item, where it is the
-- current one of the queue, stays as failed with the message, the revision is one higher, its attempts are
-- forgotten, and nothing is loaded. No other row changes, and where the item is not the current one, none.
pub on_failed-decides :
    (now : ℕ) (error : Option String) (p : PlayerState) (s : System)
    → s.controller.loaded_id ≢ ""
    → ((attempts_of s.controller < s.controller.retry_limit)
        × IsRetried s (on_failed now error p s) now s.controller.loaded_id (failure_of error))
      ⊎ ((s.controller.retry_limit ≤ attempts_of s.controller)
          × IsFailed s (on_failed now error p s) s.controller.loaded_id (failure_of error))
unfolding on_failed
on_failed-decides now error p s loaded =
    elim (Bool-cases (ltb (attempts_of s.controller) s.controller.retry_limit)) [
      | inl e ↦
          rw (same_ne s.controller.loaded_id "" loaded, e)
            (inl (ground arith, retry_item-IsRetried now (failure_of error) s))
      | inr e ↦
          rw (same_ne s.controller.loaded_id "" loaded, e)
            (inr (ground arith, fail_item-IsFailed p.title (failure_of error) s))
    ]
