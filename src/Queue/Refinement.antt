-- ===== src/Queue/Refinement.antt =====
-- internal/queue/store.go behaves as the abstract queue of Queue/Line does.
use raspi_media_player.Base.{
  ℕ, String, Bool, true, false, not, ◌≡◌, ◌≢◌, ◌≤◌, ◌+◌, refl, sym, ap, subst, ◌∙◌, Option, none,
  some, List, [], ◌∷◌, ◌==◌, All-imp, count, keep, length, Absent, Distinct, Bool-cases, inl, inr,
  same, same_ne, eq_iff, arith,
}
use raspi_media_player.Queue.Rows.{Row, Db, Result, ok, err, failed, Error}
use raspi_media_player.Queue.Table.{order_by_position, ids, has_id, compact}
use raspi_media_player.Queue.Store.{delete_and_compact, clear, mutate}
use raspi_media_player.Queue.Playing.{
  is_current, is_current_item, update_where, status_row, set_current, update_playback, set_volume,
  set_paused, finish_rows, finish_current, retry_current, reset_playback, reconcile_playback,
}
use raspi_media_player.Queue.Numbering.{restamp-ids}
use raspi_media_player.Queue.Wellformed.{IsTable}
use raspi_media_player.Queue.Statuses.{status_row-KeepsKeys}
use raspi_media_player.Queue.Deletion.{delete_and_compact-ok}
use raspi_media_player.Queue.Permuting.{IsPermutation}
use raspi_media_player.Queue.Contract.{remove-Succeeds, skip-Succeeds, reorder-Succeeds}
use raspi_media_player.Queue.Calls.{
  Call, adds, removes, clears, skips, reorders, sets_current, updates_playback, sets_volume,
  sets_paused, finishes, retries, resets, reconciles, database_of, run, IsWellFormed,
}
use raspi_media_player.Queue.Invariant.{run-IsWellFormed}
use raspi_media_player.Queue.Traces.{queue_ids, after, run_all, run-IsTracked, update-queue_ids}
use raspi_media_player.Queue.Line.{
  line, is_named, Permutes, moved, MayFail, Walk, rests, moves, fails,
}
use raspi_media_player.Queue.Movements.{
  Moved, line_eq, ids-keep, count-waiting, length-queue_ids, adds-Moved, removes-Moved,
  clears-Moved, skips-Moved, reorders-Moved,
}

module _ (id : String) where
  count-current_le : (rows : List Row) → count (is_current_item id) rows ≤ count (has_id id) rows
  count-current_le [] = omega arith
  count-current_le (r ∷ rows) = ground (arith, count-current_le rows)

  -- Where no row has the id.
  record IsElsewhere (rows : List Row) : Type 0 where
    kept : keep (λ r. not (has_id id r)) rows ≡ rows
    kept_current : keep (λ r. not (is_current_item id r)) rows ≡ rows
    none_current : count (is_current_item id) rows ≡ 0

  Absent-IsElsewhere : (rows : List Row) → Absent id (ids rows) → IsElsewhere rows
  Absent-IsElsewhere [] h = record { kept = refl; kept_current = refl; none_current = refl }
  Absent-IsElsewhere (r ∷ rows) h =
      let other = same_ne r.id id h.0 in
      let left = Absent-IsElsewhere rows h.1 in
      record {
        kept = rw other (ap (◌∷◌ r) left.kept);
        kept_current = rw other (ap (◌∷◌ r) left.kept_current);
        none_current = rw other left.none_current;
      }

  -- The one current row with an id is the one row with that id.
  keep-current :
      (rows : List Row)
      → Distinct (ids rows)
      → count (is_current_item id) rows ≡ 1
      → keep (λ r. not (is_current_item id r)) rows ≡ keep (λ r. not (has_id id r)) rows
  keep-current [] d one = refl
  keep-current (r ∷ rows) d one = elim (Bool-cases (same r.id id)) [
    | inl e ↦
        let away =
          Absent-IsElsewhere rows (subst (λ x. Absent x (ids rows)) ((eq_iff r.id id).0 e) d.0) in
        elim (Bool-cases (is_current r)) [
          | inl now ↦ rw (e, now, away.kept, away.kept_current) refl
          | inr idle ↦ absurd (nothing_is_one (sym away.none_current ∙ (rw (e, idle) at one)))
        ]
    | inr e ↦ rw e (ap (◌∷◌ r) (keep-current rows d.1 (rw e at one)))
  ]
    where
      nothing_is_one : ◌≢◌ {A = ℕ} 0 1
      nothing_is_one h = omega arith

delete-compact :
    (test : Row → Bool) (rows : List Row)
    → count test rows ≢ 0
    → delete_and_compact test rows ≡ compact (keep (λ r. not (test r)) rows)
unfolding delete_and_compact
delete-compact test rows h = rw (not_zero (count test rows) h) refl
  where
    not_zero : (n : ℕ) → n ≢ 0 → (n == 0) ≡ false
    not_zero n h = ground arith

module _ (db db' : Db) (t : IsTable db.items) where
  finishes-Moved :
      (id : String) (failure : Option String)
      → run (finishes id failure) db ≡ ok db'
      → Moved (finishes id failure) db db'
  unfolding run finish_current
  finishes-Moved id failure h = (waiting, go failure rows)
    where
      one : count (is_current_item id) db.items ≡ 1
      one = ground arith

      rows : finish_rows id failure db.items ≡ ok db'.items
      rows = ground arith

      raised_once : db'.state.revision ≡ db.state.revision + 1
      raised_once = ground arith

      some_row : count (has_id id) db.items ≢ 0
      some_row z = omega (arith, one, count-current_le id db.items, z)

      waiting : count (is_named id) (queue_ids db) ≢ 0
      waiting z = some_row (sym (count-waiting db id) ∙ z)

      go :
          (f : Option String)
          → finish_rows id f db.items ≡ ok db'.items
          → line db' ≡ moved (finishes id f) (line db)
      go none e =
          let (rows', done, sorted, table) =
            delete_and_compact-ok (has_id id) db.items t some_row in
          let same_rows : rows' ≡ db'.items = cc (
            sym done
            ∙ delete-compact (has_id id) db.items some_row
            ∙ ap compact (sym (keep-current id db.items t.ids_differ one))
            ∙ e) in
          line_eq raised_once (
            ap (λ l. ids (order_by_position l)) (sym same_rows)
            ∙ ap ids sorted
            ∙ restamp-ids 0 (keep (λ r. not (has_id id r)) (order_by_position db.items))
            ∙ ids-keep id (order_by_position db.items))
      go (some message) e =
          let change = status_row failed message in
          let same_rows : db'.items ≡ update_where (is_current_item id) change db.items =
            sym (cc e) in
          line_eq raised_once (
            ap (λ l. ids (order_by_position l)) same_rows
            ∙ update-queue_ids (is_current_item id) change db.items
                (status_row-KeepsKeys failed message))

-- A call that keeps the revision.
module _ (c : Call) (db db' : Db) (h : run c db ≡ ok db') where
  quiet : db'.state.revision ≡ db.state.revision → line db' ≡ line db
  quiet e = elim (run-IsTracked c db db' h) [
    | inl raised_once ↦ absurd (omega (arith, raised_once, e))
    | inr (kept, order) ↦ line_eq e order
  ]

-- Every call that succeeds on a table.
run-Moved : (c : Call) (db db' : Db) → IsTable db.items → run c db ≡ ok db' → Moved c db db'
unfolding run set_volume set_paused reset_playback set_current retry_current update_playback
    reconcile_playback
run-Moved (adds a) db db' t h = adds-Moved db db' t a h
run-Moved (removes id seen) db db' t h = removes-Moved db db' t id seen h
run-Moved (clears seen) db db' t h = clears-Moved db db' t seen h
run-Moved (skips seen) db db' t h = skips-Moved db db' t seen h
run-Moved (reorders order seen) db db' t h = reorders-Moved db db' t order seen h
run-Moved (finishes id failure) db db' t h = finishes-Moved db db' t id failure h
run-Moved (sets_current id) db db' t h = (tt, quiet (sets_current id) db db' h (ground arith))
run-Moved (updates_playback s) db db' t h = (tt, quiet (updates_playback s) db db' h (ground arith))
run-Moved (sets_volume volume) db db' t h = (tt, quiet (sets_volume volume) db db' h (ground arith))
run-Moved (sets_paused pause) db db' t h = (tt, quiet (sets_paused pause) db db' h (ground arith))
run-Moved (retries id failure) db db' t h = (tt, quiet (retries id failure) db db' h (ground arith))
run-Moved (resets status message) db db' t h =
    (tt, quiet (resets status message) db db' h (ground arith))
run-Moved reconciles db db' t h = (tt, quiet reconciles db db' h (ground arith))

some_head :
    (sorted : List Row)
    → length (ids sorted) ≢ 0
    → (r : Row) × (rows : List Row) × (sorted ≡ r ∷ rows)
some_head [] h = absurd (h refl)
some_head (r ∷ rows) h = (r, rows, refl)

module _ (db : Db) (t : IsTable db.items) where
  unpermutes : (order : List String) → Permutes order (line db) → IsPermutation order db.items
  unpermutes order p = record {
    different = p.different;
    found = All-imp order (λ x e. sym (count-waiting db x) ∙ e) p.waiting;
    as_many = p.as_many ∙ length-queue_ids db;
  }

  clear-current :
      database_of (clear db.state.revision db)
      ≡ ok (record db { items = []; state = record db.state { revision = db.state.revision + 1 } })
  unfolding clear mutate compact order_by_position
  clear-current = rw (equal_test db.state.revision) refl
    where
      equal_test : (n : ℕ) → (n == n) ≡ true
      equal_test n = ground arith

  -- A change that fails was not accepted.
  run-MayFail : (c : Call) {e : Error} → run c db ≡ err e → MayFail c (line db)
  unfolding run
  run-MayFail (removes id seen) h = λ (now, waiting).
      let (rows, done, sorted, table) =
        remove-Succeeds db t id (λ z. waiting (count-waiting db id ∙ z)) in
      cc (done, now, h)
  run-MayFail (clears seen) h = λ now. cc (clear-current, now, h)
  run-MayFail (skips seen) h = λ (now, waiting).
      let (r, rows, e) = some_head (order_by_position db.items) waiting in
      let (left, done, sorted, table) = skip-Succeeds db t r rows e in cc (done, now, h)
  run-MayFail (reorders order seen) h = λ (now, p).
      let (rows, done, sorted, table) = reorder-Succeeds db t order (unpermutes order p) in
      cc (done, now, h)
  run-MayFail (adds a) h = tt
  run-MayFail _ h = tt

-- On a well-formed database the calls of listeners and of the controller run the abstract queue: a
-- call that succeeds was accepted by the line and moves it as the line says, any other call leaves
-- it, and a removal, a clear, a skip or a reorder fails only where the line does not accept it.
pub run_all-Walk :
    (cs : List Call) (db : Db) → IsWellFormed db → Walk cs (line db) (line (run_all cs db))
unfolding run_all
run_all-Walk [] db w = rests
run_all-Walk (c ∷ cs) db w = go (run c db) refl (λ db' w'. run_all-Walk cs db' w')
  where
    go :
        (r : Result Db)
        → run c db ≡ r
        → ((db' : Db) → IsWellFormed db' → Walk cs (line db') (line (run_all cs db')))
        → Walk (c ∷ cs) (line db) (line (run_all cs (after db r)))
    go (ok db') h later =
        let (accepted, made) = run-Moved c db db' w.table h in
        moves accepted (
          subst (λ l. Walk cs l (line (run_all cs db'))) made
            (later db' (run-IsWellFormed c db db' w h)))
    go (err e) h later = fails (run-MayFail db w.table c h) (later db w)
