-- ===== src/Library/Segments.antt =====
-- internal/library/store.go: the open segments of the history. A queue item has one at most.
use raspi_media_player.Base.{
  ℕ, suc, ◌≤◌, ◌<◌, String, Bool, true, false, not, ◌≡◌, ◌≢◌, refl, sym, ap, ◌∙◌, subst, none, some,
  List, [], ◌∷◌, ◌&&◌, count, count-keep-le, count-map_le, count-map_lt, keep, inl, inr, Bool-cases,
  if_split, same, eq_refl, comes_before, if◌then◌else◌, arith,
}
use raspi_media_player.Library.Rows.{HistoryItem}
use raspi_media_player.Library.Store.{insert_sorted, sorted_by}
use raspi_media_player.Library.History.{
  is_unfinished, is_open, is_segment, interrupted, update_segments, latest_started, head_of,
  open_segment,
}

module _ {ℓ} {A : Type ℓ} (before : A → A → Bool) (p : A → Bool) where
  count-insert_sorted :
      (x : A) (xs : List A) → count p (insert_sorted before x xs) ≡ count p (x ∷ xs)
  count-insert_sorted x [] = refl
  count-insert_sorted x (y ∷ ys) = ground (arith, count-insert_sorted x ys)

  pub count-sorted_by : (xs : List A) → count p (sorted_by before xs) ≡ count p xs
  count-sorted_by [] = refl
  count-sorted_by (x ∷ xs) =
      count-insert_sorted x (sorted_by before xs) ∙ more (p x) (count-sorted_by xs)
    where
      more : (b : Bool) {m n : ℕ} → m ≡ n → (if b then suc m else m) ≡ (if b then suc n else n)
      more true e = ap suc e
      more false e = e

-- What a closing of segments, or a change of their titles, cannot do.
abbrev pub Opens : (HistoryItem → HistoryItem) → Type 0
Opens f = (q : String) (i : HistoryItem) → is_open q (f i) ≡ true → is_open q i ≡ true

update-Opens :
    (test : HistoryItem → Bool) (f : HistoryItem → HistoryItem)
    → Opens f
    → Opens (λ i. if test i then f i else i)
update-Opens test f h q i = go (test i)
  where
    go : (t : Bool) → is_open q (if t then f i else i) ≡ true → is_open q i ≡ true
    go true = h q i
    go false = λ e. e

never_true : (b : Bool) → (b && false) ≡ true → ⊥
never_true true e = cc e
never_true false e = cc e

and_false : (b : Bool) → (b && false) ≡ false
and_false true = refl
and_false false = refl

both : (a b : Bool) → (a && b) ≡ true → (a ≡ true) × (b ≡ true)
both true b e = (refl, e)
both false b e = cc e

pub closing-Opens :
    (f : HistoryItem → HistoryItem)
    → ((i : HistoryItem) → is_unfinished (f i).finished_at ≡ false)
    → Opens f
closing-Opens f closes q i e = absurd (
    never_true (same (f i).queue_item_id q)
      (subst (λ b. (same (f i).queue_item_id q && b) ≡ true) (closes i) e))

module _ (q : String) where
  pub update-count_le :
      (test : HistoryItem → Bool) (f : HistoryItem → HistoryItem) (items : List HistoryItem)
      → Opens f
      → count (is_open q) (update_segments test f items) ≤ count (is_open q) items
  update-count_le test f items h =
      count-map_le (λ i. if test i then f i else i) (is_open q) (is_open q) items
        (update-Opens test f h q)

  -- Closing every open segment of the item.
  interrupted-shut :
      (now : ℕ) (i : HistoryItem) → is_open q (if is_open q i then interrupted now i else i) ≡ false
  interrupted-shut now i =
      if_split (λ (j : HistoryItem). is_open q j ≡ false) (is_open q i) (interrupted now i) i
        (λ e. and_false (same i.queue_item_id q)) (λ e. e)

  pub interrupted-count :
      (now : ℕ) (items : List HistoryItem)
      → count (is_open q) (update_segments (is_open q) (interrupted now) items) ≡ 0
  interrupted-count now [] = refl
  interrupted-count now (i ∷ items) = rw (interrupted-shut now i) (interrupted-count now items)

-- The segment that `ORDER BY started_at DESC LIMIT 1` finds is an open one of the table.
counted_head :
    (p : HistoryItem → Bool) (items : List HistoryItem) {i : HistoryItem}
    → head_of items ≡ some i
    → p i ≡ true
    → count p items ≢ 0
counted_head p [] h e = cc h
counted_head p (x ∷ items) {i} h e = rw (subst (λ y. p y ≡ true) (same_head h) e) (omega arith)
  where
    same_head : some x ≡ some i → i ≡ x
    same_head h = cc h

module _ (shown : ℕ → String) (q : String) where
  -- What holds of every open segment of the item holds of the one that is found.
  open_segment-counted :
      (p : HistoryItem → Bool) (items : List HistoryItem) {i : HistoryItem}
      → open_segment shown q items ≡ some i
      → p i ≡ true
      → count p (keep (is_open q) items) ≢ 0
  open_segment-counted p items h e z =
      counted_head p (latest_started shown (keep (is_open q) items)) h e (
        count-sorted_by (λ i j. comes_before (shown j.started_at) (shown i.started_at)) p
          (keep (is_open q) items)
        ∙ z)

  not_open_none :
      (items : List HistoryItem) → count (λ i. not (is_open q i)) (keep (is_open q) items) ≡ 0
  not_open_none [] = refl
  not_open_none (i ∷ items) = ground (arith, not_open_none items)

  pub open_segment-open :
      (items : List HistoryItem) {i : HistoryItem}
      → open_segment shown q items ≡ some i
      → is_open q i ≡ true
  open_segment-open items {i} h = elim (Bool-cases (is_open q i)) [
    | inl e ↦ e
    | inr e ↦
        absurd
          (open_segment-counted (λ i. not (is_open q i)) items h (ap not e) (not_open_none items))
  ]

  -- Closing it leaves one open segment less.
  pub closed-fewer :
      (f : HistoryItem → HistoryItem) (items : List HistoryItem) {i : HistoryItem}
      → ((j : HistoryItem) → is_unfinished (f j).finished_at ≡ false)
      → open_segment shown q items ≡ some i
      → count (is_open q) (update_segments (is_segment i.id) f items) < count (is_open q) items
  closed-fewer f items {i} closes h =
      count-map_lt (λ j. if is_segment i.id j then f j else j) (is_open q) (is_open q)
        (λ j. is_open q j && is_segment i.id j) items
        (update-Opens (is_segment i.id) f (closing-Opens f closes) q) drops
        (λ z.
          open_segment-counted (λ j. is_open q j && is_segment i.id j) items h
            (rw (open_segment-open items h, eq_refl i.id) refl)
            (omega
              (arith, z, count-keep-le (λ j. is_open q j && is_segment i.id j) (is_open q) items)))
    where
      drops :
          (j : HistoryItem)
          → (is_open q j && is_segment i.id j) ≡ true
          → (is_open q j ≡ true) × (is_open q (if is_segment i.id j then f j else j) ≡ false)
      drops j e =
          let (open_, it) = both (is_open q j) (is_segment i.id j) e in
          (
            open_,
            if_split (λ (k : HistoryItem). is_open q k ≡ false) (is_segment i.id j) (f j) j
                (λ t.
                  subst (λ b. (same (f j).queue_item_id q && b) ≡ false) (sym (closes j))
                    (and_false (same (f j).queue_item_id q)))
                (λ other. cc (it, other)),
          )

  -- Where none is found, none is open.
  pub open_segment-none :
      (items : List HistoryItem) → open_segment shown q items ≡ none → count (is_open q) items ≡ 0
  open_segment-none items h =
      sym (count-keep_self items)
      ∙ sym (
          count-sorted_by (λ i j. comes_before (shown j.started_at) (shown i.started_at))
            (is_open q) (keep (is_open q) items))
      ∙ empty (latest_started shown (keep (is_open q) items)) h
    where
      count-keep_self :
          (items : List HistoryItem)
          → count (is_open q) (keep (is_open q) items) ≡ count (is_open q) items
      count-keep_self [] = refl
      count-keep_self (i ∷ items) = ground (arith, count-keep_self items)

      empty : (items : List HistoryItem) → head_of items ≡ none → count (is_open q) items ≡ 0
      empty [] h = refl
      empty (i ∷ items) h = cc h
