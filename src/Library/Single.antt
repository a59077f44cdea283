-- ===== src/Library/Single.antt =====
-- internal/library/store.go: a queue item has one open segment at most, whatever is called.
use raspi_media_player.Base.{
  ℕ, suc, ◌+◌, ◌-◌, ◌≤◌, String, Bool, true, false, not, ◌≡◌, ◌≢◌, refl, sym, ◌∙◌, subst, Option,
  none, some, List, [], ◌∷◌, ◌++◌, ◌&&◌, count, count-append, count-keep-le, keep, inl, inr,
  Bool-cases, if_split, same, same_ne, eq_iff, comes_before, ltb, ◌==◌, trim, is_space, arith,
}
use raspi_media_player.Library.Rows.{
  HistoryItem, Library, Result, stored, ◌>>◌, demand, not_found, violated_constraint,
}
use raspi_media_player.Library.History.{
  is_unfinished, is_open, is_segment, interrupted, update_segments, submitter_of, new_segment,
  record_started, open_segment, finished, finish_segment, retained, record_finished, titled,
  completed, title_recorded, record_title_changed, is_attributed, remove_user_history, five_seconds,
}
use raspi_media_player.Library.Segments.{
  update-count_le, interrupted-count, closing-Opens, closed-fewer, open_segment-open,
  open_segment-none,
}
use raspi_media_player.Library.Plays.{
  Recorder, Play, starts, finishes, retitles, forgets, or_unchanged, library_of, play, play_all,
  open_count, IsSingle,
}

module _ (q : String) where
  appended :
      (items : List HistoryItem) (row : HistoryItem) (n : ℕ)
      → count (is_open q) items ≡ n
      → count (is_open q) (items ++ row ∷ []) ≤ suc n
  appended items row n e = omega (arith, e, count-append (is_open q) items (row ∷ []), one row)
    where
      one : (row : HistoryItem) → count (is_open q) (row ∷ []) ≤ 1
      one row = ground arith

  appended_other :
      (items : List HistoryItem) (row : HistoryItem)
      → is_open q row ≡ false
      → count (is_open q) (items ++ row ∷ []) ≡ count (is_open q) items
  appended_other items row e = omega (arith, count-append (is_open q) items (row ∷ []), none_more e)
    where
      none_more : is_open q row ≡ false → count (is_open q) (row ∷ []) ≡ 0
      none_more e = rw e refl

  -- A row of another queue item is not open for this one.
  other_item : (row : HistoryItem) → row.queue_item_id ≢ q → is_open q row ≡ false
  other_item row h = rw (same_ne row.queue_item_id q h) refl

  and_first : (b c : Bool) → b ≡ false → (b && c) ≡ false
  and_first true c e = cc e
  and_first false c e = refl

  record_started-IsSingle :
      (id : String) (now : ℕ) (item kind url user : String) (l : Library)
      → IsSingle q l
      → IsSingle q (or_unchanged l (record_started id now item kind url user l))
  unfolding record_started
  record_started-IsSingle id now item kind url user l one =
      by_fresh (count (is_segment id) l.history == 0)
    where
      closed : List HistoryItem
      closed = update_segments (is_open item) (interrupted now) l.history

      row : HistoryItem
      row = new_segment id now item kind url "" (submitter_of user)

      ends : count (is_open q) (closed ++ row ∷ []) ≤ 1
      ends = elim (Bool-cases (same item q)) [
        | inl e ↦ appended closed row 0 (
            subst
              (λ x. count (is_open q) (update_segments (is_open x) (interrupted now) l.history) ≡ 0)
              (sym ((eq_iff item q).0 e)) (interrupted-count q now l.history))
        | inr e ↦ omega (
          arith,
          one,
          appended_other closed row (and_first (same item q) true e),
          update-count_le q (is_open item) (interrupted now) l.history
              (closing-Opens (interrupted now) (λ i. refl)),
        )
      ]

      by_fresh :
          (b : Bool)
          → IsSingle q (
              or_unchanged l (
                demand b violated_constraint >> stored (record l { history = closed ++ row ∷ [] })))
      by_fresh true = ends
      by_fresh false = one

  retained-le :
      (k : Recorder) (now : ℕ) (items : List HistoryItem)
      → count (is_open q) (retained k.shown k.retention now items) ≤ count (is_open q) items
  retained-le k now items =
      if_split (λ (kept : List HistoryItem). count (is_open q) kept ≤ count (is_open q) items)
        (k.retention == 0) items
        (keep (λ i. not (comes_before (k.shown i.started_at) (k.shown (now - k.retention)))) items)
        (λ e. omega arith)
        (λ e.
          count-keep-le (is_open q)
            (λ i. not (comes_before (k.shown i.started_at) (k.shown (now - k.retention)))) items)

  finish_segment-le :
      (o : Option HistoryItem) (title : String) (now : ℕ) (outcome failure : String)
      (items : List HistoryItem)
      → count (is_open q) (finish_segment o title now outcome failure items)
        ≤ count (is_open q) items
  finish_segment-le none title now outcome failure items = omega arith
  finish_segment-le (some i) title now outcome failure items =
      update-count_le q (is_segment i.id) (finished title now outcome failure) items
        (closing-Opens (finished title now outcome failure) (λ j. refl))

  record_finished-IsSingle :
      (k : Recorder) (item : String) (now : ℕ) (title outcome failure : String) (l : Library)
      → IsSingle q l
      → IsSingle q (record_finished k.shown k.retention item now title outcome failure l)
  unfolding record_finished
  record_finished-IsSingle k item now title outcome failure l one =
      let o = open_segment k.shown item l.history in
      omega (
        arith,
        one,
        finish_segment-le o title now outcome failure l.history,
        retained-le k now (finish_segment o title now outcome failure l.history),
      )

  -- The new segment after another title takes the place of the open one.
  segment_follows :
      (k : Recorder) (item id : String) (now : ℕ) (title : String) (i : HistoryItem) (l : Library)
      → open_segment k.shown item l.history ≡ some i
      → IsSingle q l
      → count (is_open q) (
          update_segments (is_segment i.id) (completed now) l.history
          ++ new_segment id now i.queue_item_id i.source_kind i.source_url title i.submitter ∷ [])
        ≤ 1
  segment_follows k item id now title i l found one = elim (Bool-cases (same i.queue_item_id q)) [
    | inl e ↦ appended closed row 0 (
        omega (
          arith,
          one,
          closed-fewer k.shown q (completed now) l.history (λ j. refl)
              (subst (λ x. open_segment k.shown x l.history ≡ some i)
                (sym own ∙ (eq_iff i.queue_item_id q).0 e) found),
        ))
    | inr e ↦ omega (
      arith,
      one,
      appended_other closed row (and_first (same i.queue_item_id q) true e),
      update-count_le q (is_segment i.id) (completed now) l.history
          (closing-Opens (completed now) (λ j. refl)),
    )
  ]
    where
      closed : List HistoryItem
      closed = update_segments (is_segment i.id) (completed now) l.history

      row : HistoryItem
      row = new_segment id now i.queue_item_id i.source_kind i.source_url title i.submitter

      own : i.queue_item_id ≡ item
      own = (eq_iff i.queue_item_id item).0 (
          first_of (same i.queue_item_id item) (is_unfinished i.finished_at)
            (open_segment-open k.shown item l.history found))
        where
          first_of : (b c : Bool) → (b && c) ≡ true → b ≡ true
          first_of true c e = refl
          first_of false c e = cc e

  record_title_changed-IsSingle :
      (k : Recorder) (id : String) (now : ℕ) (item title : String) (l : Library)
      → IsSingle q l
      → IsSingle q (
          or_unchanged l
            (library_of (record_title_changed k.shown k.folds_equal id now item title l)))
  unfolding record_title_changed
  record_title_changed-IsSingle k id now item title l one =
      if_split Single (same (trim is_space title) "") _ _ (λ e. one)
        (λ e. found (open_segment k.shown item l.history) refl)
    where
      Single : Result (Library × Bool) → Type 0
      Single r = IsSingle q (or_unchanged l (library_of r))

      retitled_le :
          (i : HistoryItem)
          → count
              (is_open q)
              (update_segments (is_segment i.id) (titled (trim is_space title)) l.history)
            ≤ 1
      retitled_le i = omega (
        arith,
        one,
        update-count_le q (is_segment i.id) (titled (trim is_space title)) l.history (λ p j e. e),
      )

      stored_if :
          (b : Bool) (l' : Library)
          → count (is_open q) l'.history ≤ 1
          → Single (demand b violated_constraint >> stored (l', true))
      stored_if true l' h = h
      stored_if false l' h = one

      found :
          (o : Option HistoryItem)
          → open_segment k.shown item l.history ≡ o
          → Single (title_recorded k.folds_equal id now (trim is_space title) o l)
      found none h = one
      found (some i) h =
          if_split Single (k.folds_equal (trim is_space i.title) (trim is_space title)) _ _
            (λ e. one)
            (λ e.
              if_split Single (same i.title "") _ _ (λ first. retitled_le i)
                (λ again.
                  if_split Single (ltb now (i.started_at + five_seconds)) _ _ (λ early. one)
                    (λ late.
                      stored_if _ _
                        (segment_follows k item id now (trim is_space title) i l h one))))

  remove_user_history-IsSingle :
      (user id : String) (l : Library)
      → IsSingle q l
      → IsSingle q (or_unchanged l (remove_user_history user id l))
  unfolding remove_user_history
  remove_user_history-IsSingle user id l one = by_test (not (count own l.history == 0))
    where
      own : HistoryItem → Bool
      own i = is_segment id i && is_attributed user i

      forget : HistoryItem → HistoryItem
      forget i = record i { submitter = none }

      by_test :
          (b : Bool)
          → IsSingle q (
              or_unchanged l (
                demand b not_found
                >> stored (record l { history = update_segments own forget l.history })))
      by_test true = omega (arith, one, update-count_le q own forget l.history (λ p j e. e))
      by_test false = one

  -- Whatever is played, finished, retitled or forgotten, a queue item that has one open segment at most
  -- keeps to one at most.
  pub play_all-IsSingle :
      (k : Recorder) (ps : List Play) (l : Library) → IsSingle q l → IsSingle q (play_all k ps l)
  unfolding play play_all
  play_all-IsSingle k [] l one = one
  play_all-IsSingle k (starts id now item kind url user ∷ ps) l one =
      play_all-IsSingle k ps (play k (starts id now item kind url user) l)
        (record_started-IsSingle id now item kind url user l one)
  play_all-IsSingle k (finishes item now title outcome failure ∷ ps) l one =
      play_all-IsSingle k ps (play k (finishes item now title outcome failure) l)
        (record_finished-IsSingle k item now title outcome failure l one)
  play_all-IsSingle k (retitles id now item title ∷ ps) l one =
      play_all-IsSingle k ps (play k (retitles id now item title) l)
        (record_title_changed-IsSingle k id now item title l one)
  play_all-IsSingle k (forgets user id ∷ ps) l one =
      play_all-IsSingle k ps (play k (forgets user id) l)
        (remove_user_history-IsSingle user id l one)

  -- Where a queue item had one open segment at most, nothing of it is open once it is finished.
  pub record_finished-closes :
      (k : Recorder) (now : ℕ) (title outcome failure : String) (l : Library)
      → IsSingle q l
      → open_count q (record_finished k.shown k.retention q now title outcome failure l) ≡ 0
  unfolding record_finished
  record_finished-closes k now title outcome failure l one = omega (
    arith,
    retained-le k now (finish_segment o title now outcome failure l.history),
    none_left o refl,
  )
    where
      o : Option HistoryItem
      o = open_segment k.shown q l.history

      none_left :
          (o : Option HistoryItem)
          → open_segment k.shown q l.history ≡ o
          → count (is_open q) (finish_segment o title now outcome failure l.history) ≡ 0
      none_left none h = open_segment-none k.shown q l.history h
      none_left (some i) h = omega (
        arith,
        one,
        closed-fewer k.shown q (finished title now outcome failure) l.history (λ j. refl) h,
      )
