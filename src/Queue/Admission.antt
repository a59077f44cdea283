-- ===== src/Queue/Admission.antt =====
-- `AddSourceTitled` of internal/queue/store.go: when a source is admitted, and each refusal.
use raspi_media_player.Base.{
  ℕ, suc, String, true, false, ◌≡◌, ◌≢◌, ◌<◌, ◌≤◌, refl, sym, ap, subst, ◌∙◌, List, [], ◌∷◌, ◌++◌,
  All, count, length, length-append, Bool-cases, inl, inr, same, eq_iff, ◌==◌, leb, arith,
}
use raspi_media_player.Queue.Rows.{Row, Db, Snapshot, Item, Result, ok, err, full, duplicate}
use raspi_media_player.Queue.Table.{order_by_position, has_id}
use raspi_media_player.Queue.Store.{
  snapshot, bump, user_exists, has_url, max_position, next, new_row, new_item, Addition,
  add_source_titled,
}
use raspi_media_player.Queue.Wellformed.{IsTable}
use raspi_media_player.Queue.Insertion.{append-IsTable, next-not_taken}

-- The row that an addition makes.
abbrev pub row_of : Addition → Db → Row
row_of a db =
    new_row a.id a.now a.source_kind a.url a.title a.display_name a.user
      (next (max_position db.items))

count-none :
    (f : Row → String) (x : String) (rows : List Row)
    → count (λ r. same (f r) x) rows ≡ 0
    → All (λ r. f r ≢ x) rows
count-none f x [] h = tt
count-none f x (r ∷ rows) h = elim (Bool-cases (same (f r) x)) [
  | inl e ↦ absurd (absurd_suc (count (λ s. same (f s) x) rows) (rw e at h))
  | inr e ↦ ((λ p. cc ((eq_iff (f r) x).1 p)), count-none f x rows (rw e at h))
]
  where
    absurd_suc : (n : ℕ) → suc n ≢ 0
    absurd_suc n h = omega arith

below : (m n : ℕ) → n < m → leb m n ≡ false
below m n h = ground arith

not_zero : (n : ℕ) → n ≢ 0 → (n == 0) ≡ false
not_zero n h = ground arith

module _ (a : Addition) (db : Db) (t : IsTable db.items) where
  -- A source under a fresh id, below the limit, new to a queue that is a table, from a known submitter
  -- or none, is admitted: its row goes to the end of the queue, the other rows stay, the rows are a
  -- table, and the revision is one higher.
  pub add_source_titled-ok :
      length db.items < a.limit
      → count (has_id a.id) db.items ≡ 0
      → count (has_url a.url) db.items ≡ 0
      → user_exists (row_of a db).submitter_user_id db.users ≡ true
      → let db' = bump (record db { items = db.items ++ row_of a db ∷ [] }) in
        (add_source_titled a db ≡ ok (db', snapshot db', new_item (row_of a db) a.user))
        × (order_by_position db'.items ≡ order_by_position db.items ++ row_of a db ∷ [])
        × IsTable db'.items
  unfolding add_source_titled
  add_source_titled-ok room fresh_id fresh_url known =
      let (sorted, table) =
        append-IsTable db.items (row_of a db) t refl (count-none (λ r. r.id) a.id db.items fresh_id)
          (count-none (λ r. r.source_url) a.url db.items fresh_url) in
      (
        rw
            (
              below a.limit (length db.items) room,
              fresh_id,
              fresh_url,
              known,
              next-not_taken db.items t.numbered,
            )
            refl,
        sorted,
        table,
      )

  -- At the limit the queue is full, whatever the source is.
  pub add_source_titled-full : a.limit ≤ length db.items → add_source_titled a db ≡ err full
  unfolding add_source_titled
  add_source_titled-full h = rw (at_least a.limit (length db.items) h) refl
    where
      at_least : (m n : ℕ) → m ≤ n → leb m n ≡ true
      at_least m n h = ground arith

  -- Below the limit, an url that a table holds is a duplicate.
  pub add_source_titled-duplicate :
      length db.items < a.limit
      → count (has_url a.url) db.items ≢ 0
      → add_source_titled a db ≡ err duplicate
  unfolding add_source_titled
  add_source_titled-duplicate room h = elim (Bool-cases (count (has_id a.id) db.items == 0)) [
    | inl fresh ↦
        rw
          (
            below a.limit (length db.items) room,
            fresh,
            next-not_taken db.items t.numbered,
            not_zero (count (has_url a.url) db.items) h,
          )
          refl
    | inr used ↦ rw (below a.limit (length db.items) room, used) refl
  ]

-- An addition that succeeds passed every test, and its row is the last of the stored rows.
pub record WasAdmitted (a : Addition) (db db' : Db) : Type 0 where
  pub fresh_id : count (has_id a.id) db.items ≡ 0
  pub fresh_url : count (has_url a.url) db.items ≡ 0
  pub room : length db.items < a.limit
  pub stored : db' ≡ bump (record db { items = db.items ++ row_of a db ∷ [] })

abbrev pub added_database : Result (Db × Snapshot × Item) → Result Db
added_database (ok r) = ok r.0
added_database (err e) = err e

pub admitted :
    (a : Addition) (db db' : Db)
    → added_database (add_source_titled a db) ≡ ok db'
    → WasAdmitted a db db'
unfolding add_source_titled
admitted a db db' h = ground arith

-- An addition to a table that succeeds leaves a table, and its length is within the limit.
pub add_source_titled-IsTable :
    (a : Addition) (db db' : Db)
    → IsTable db.items
    → added_database (add_source_titled a db) ≡ ok db'
    → IsTable db'.items × (length db'.items ≤ a.limit)
add_source_titled-IsTable a db db' t h =
    let was = admitted a db db' h in
    let (sorted, table) =
      append-IsTable db.items (row_of a db) t refl
        (count-none (λ r. r.id) a.id db.items was.fresh_id)
        (count-none (λ r. r.source_url) a.url db.items was.fresh_url) in
    let rows : db'.items ≡ db.items ++ row_of a db ∷ [] = ap (λ (d : Db). d.items) was.stored in
    (
      subst IsTable (sym rows) table,
      rw rows (omega (arith, was.room, length-append db.items (row_of a db ∷ []))),
    )

-- The row of an addition that succeeds is the last of the queue.
pub admitted-sorted :
    (a : Addition) (db db' : Db)
    → IsTable db.items
    → WasAdmitted a db db'
    → order_by_position db'.items ≡ order_by_position db.items ++ row_of a db ∷ []
admitted-sorted a db db' t was =
    let (sorted, table) =
      append-IsTable db.items (row_of a db) t refl
        (count-none (λ r. r.id) a.id db.items was.fresh_id)
        (count-none (λ r. r.source_url) a.url db.items was.fresh_url) in
    ap (λ (d : Db). order_by_position d.items) was.stored ∙ sorted
