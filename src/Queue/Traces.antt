-- ===== src/Queue/Traces.antt =====
-- Sequences of calls on the database of internal/queue/store.go: the invariant, and what the
-- revision says of the queue.
use raspi_media_player.Base.{
  suc, String, Bool, ◌≡◌, ◌⊎◌, ◌≤◌, refl, ap, ◌∙◌, List, [], ◌∷◌, ◌&&◌, same, Bool-cases, inl, inr,
  if◌then◌else◌, arith,
}
use raspi_media_player.Queue.Rows.{Row, Db, Result, ok, err, queued, current}
use raspi_media_player.Queue.Table.{
  order_by_position, ids, has_id, has_repeat, reorder_rows, compact,
}
use raspi_media_player.Queue.Store.{delete_and_compact, remove, clear, skip, is_first, reorder}
use raspi_media_player.Queue.Playing.{
  is_queued, is_current, is_current_item, update_where, status_row, set_current, update_playback,
  set_volume, set_paused, finish_current, retry_current, reset_playback, reconcile_playback,
  message_of, takes_title,
}
use raspi_media_player.Queue.Admission.{admitted}
use raspi_media_player.Queue.Statuses.{
  KeepsKeys, status_row-KeepsKeys, update_where-KeepsKeys, order_by_position-update, map-column,
}
use raspi_media_player.Queue.Calls.{
  Call, adds, removes, clears, skips, reorders, sets_current, updates_playback, sets_volume,
  sets_paused, finishes, retries, resets, reconciles, run, IsWellFormed,
}
use raspi_media_player.Queue.Invariant.{run-IsWellFormed, mutate-WasChanged}

-- A call that fails is rolled back.
abbrev pub after : Db → Result Db → Db
after db (ok db') = db'
after db (err e) = db

unfoldable pub run_all : List Call → Db → Db
run_all [] db = db
run_all (c ∷ cs) db = run_all cs (after db (run c db))

step-IsWellFormed : (c : Call) (db : Db) → IsWellFormed db → IsWellFormed (after db (run c db))
step-IsWellFormed c db w = go (run c db) refl
  where
    go : (r : Result Db) → run c db ≡ r → IsWellFormed (after db r)
    go (ok db') h = run-IsWellFormed c db db' w h
    go (err e) h = w

-- A well-formed database is well formed after any calls of any clients, failed ones included.
pub run_all-IsWellFormed :
    (cs : List Call) (db : Db) → IsWellFormed db → IsWellFormed (run_all cs db)
unfolding run_all
run_all-IsWellFormed [] db w = w
run_all-IsWellFormed (c ∷ cs) db w =
    run_all-IsWellFormed cs (after db (run c db)) (step-IsWellFormed c db w)

abbrev pub queue_ids : Db → List String
queue_ids db = ids (order_by_position db.items)

-- A call either raises the revision by one or keeps the ids of the queue in their order.
abbrev pub IsTracked : Db → Db → Type 0
IsTracked db db' =
    (db'.state.revision ≡ suc db.state.revision)
    ⊎ ((db'.state.revision ≡ db.state.revision) × (queue_ids db' ≡ queue_ids db))

pub update-queue_ids :
    (test : Row → Bool) (f : Row → Row) (rows : List Row)
    → KeepsKeys f
    → ids (order_by_position (update_where test f rows)) ≡ ids (order_by_position rows)
update-queue_ids test f rows keeps =
    let change = λ (r : Row). if test r then f r else r in
    let kept = update_where-KeepsKeys test f keeps in
    ap ids (order_by_position-update change kept rows)
    ∙ map-column change kept (λ r. r.id) kept.keeps_id (order_by_position rows)

status_keys : KeepsKeys (λ r. record r { playback_status = queued })
status_keys = record { keeps_id = λ r. refl; keeps_url = λ r. refl; keeps_position = λ r. refl }

title_keys : (title : String) → KeepsKeys (λ r. record r { title = title })
title_keys title = record {
  keeps_id = λ r. refl;
  keeps_url = λ r. refl;
  keeps_position = λ r. refl;
}

pub run-IsTracked : (c : Call) (db db' : Db) → run c db ≡ ok db' → IsTracked db db'
unfolding run remove skip clear reorder set_volume set_paused reset_playback set_current
    retry_current finish_current update_playback reconcile_playback
run-IsTracked (adds a) db db' h =
    inl (ap (λ (d : Db). d.state.revision) (admitted a db db' h).stored ∙ omega arith)
run-IsTracked (removes id expected) db db' h =
    inl (mutate-WasChanged expected (delete_and_compact (has_id id)) db db' h).revision
run-IsTracked (clears expected) db db' h =
    inl (mutate-WasChanged expected (λ rows. compact []) db db' h).revision
run-IsTracked (skips expected) db db' h =
    inl (mutate-WasChanged expected (delete_and_compact is_first) db db' h).revision
run-IsTracked (reorders order expected) db db' h = elim (Bool-cases (has_repeat [] order)) [
  | inl repeats ↦ cc (rw repeats at h)
  | inr single ↦
      inl (mutate-WasChanged expected (reorder_rows order) db db' (rw single at h)).revision
]
run-IsTracked (sets_current id) db db' h =
    let test = λ (r : Row). has_id id r && is_queued r in
    let reset = update_where is_current (status_row queued "") db.items in
    let rows : db'.items ≡ update_where test (status_row current "") reset = ground arith in
    inr (
      ground arith,
      ap (λ l. ids (order_by_position l)) rows
          ∙ update-queue_ids test (status_row current "") reset (status_row-KeepsKeys current "")
          ∙ update-queue_ids is_current (status_row queued "") db.items
              (status_row-KeepsKeys queued ""),
    )
run-IsTracked (updates_playback s) db db' h =
    let test = takes_title db.state.current_item_id s.title in
    let change = λ (r : Row). record r { title = s.title } in
    let rows : db'.items
        ≡ (if same s.title "" then db.items else update_where test change db.items) =
      ground arith in
    inr (
      ground arith,
      elim (Bool-cases (same s.title "")) [
        | inl e ↦ ap (λ l. ids (order_by_position l)) (rw e at rows)
        | inr e ↦
            ap (λ l. ids (order_by_position l)) (rw e at rows)
            ∙ update-queue_ids test change db.items (title_keys s.title)
      ],
    )
run-IsTracked (sets_volume volume) db db' h =
    let rows : db'.items ≡ db.items = ground arith in
    inr (ground arith, ap (λ l. ids (order_by_position l)) rows)
run-IsTracked (sets_paused pause) db db' h =
    let rows : db'.items ≡ db.items = ground arith in
    inr (ground arith, ap (λ l. ids (order_by_position l)) rows)
run-IsTracked (finishes id failure) db db' h = inl (ground arith)
run-IsTracked (retries id failure) db db' h =
    let change = status_row queued (message_of failure) in
    let rows : db'.items ≡ update_where (is_current_item id) change db.items = ground arith in
    inr (
      ground arith,
      ap (λ l. ids (order_by_position l)) rows
          ∙ update-queue_ids (is_current_item id) change db.items
              (status_row-KeepsKeys queued (message_of failure)),
    )
run-IsTracked (resets status message) db db' h =
    let rows : db'.items ≡ db.items = ground arith in
    inr (ground arith, ap (λ l. ids (order_by_position l)) rows)
run-IsTracked reconciles db db' h =
    let change = λ (r : Row). record r { playback_status = queued } in
    let rows : db'.items ≡ update_where is_current change db.items = ground arith in
    inr (
      ground arith,
      ap (λ l. ids (order_by_position l)) rows
          ∙ update-queue_ids is_current change db.items status_keys,
    )

step-IsTracked :
    (c : Call) (db : Db)
    → (db.state.revision ≤ (after db (run c db)).state.revision)
      × ((after db (run c db)).state.revision ≡ db.state.revision
          → queue_ids (after db (run c db)) ≡ queue_ids db)
step-IsTracked c db = go (run c db) refl
  where
    go :
        (r : Result Db)
        → run c db ≡ r
        → (db.state.revision ≤ (after db r).state.revision)
          × ((after db r).state.revision ≡ db.state.revision
              → queue_ids (after db r) ≡ queue_ids db)
    go (ok db') h = elim (run-IsTracked c db db' h) [
      | inl raised ↦ (omega arith, λ e. absurd (omega arith))
      | inr (kept, order) ↦ (omega arith, λ e. order)
    ]
    go (err e) h = (omega arith, λ e. refl)

pub run_all-revision_le :
    (cs : List Call) (db : Db) → db.state.revision ≤ (run_all cs db).state.revision
unfolding run_all
run_all-revision_le [] db = omega arith
run_all-revision_le (c ∷ cs) db =
    omega (arith, (step-IsTracked c db).0, run_all-revision_le cs (after db (run c db)))

-- Where the revision is the same again after any calls of any clients, so are the ids of the queue and
-- their order.
pub run_all-same_revision :
    (cs : List Call) (db : Db)
    → (run_all cs db).state.revision ≡ db.state.revision
    → queue_ids (run_all cs db) ≡ queue_ids db
unfolding run_all
run_all-same_revision [] db e = refl
run_all-same_revision (c ∷ cs) db e =
    let next = after db (run c db) in
    let first = step-IsTracked c db in
    let later = run_all-revision_le cs next in
    run_all-same_revision cs next (omega (arith, first.0, later, e))
    ∙ first.1 (omega (arith, first.0, later, e))
