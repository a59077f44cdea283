-- ===== src/Queue/Arrangements.antt =====
-- A list of different ids, as long as the table and all found in it, arranges the rows.
use raspi_media_player.Base.{
  suc, String, Bool, true, false, not, ◌≡◌, ◌≢◌, ◌≤◌, refl, sym, ap, subst, ◌∙◌, List, [], ◌∷◌, All,
  Pairwise-keep, keep, count, length, Absent, Distinct, same, same_ne, eq_iff, Bool-cases, inl, inr,
  arith,
}
use raspi_media_player.Queue.Rows.{Row}
use raspi_media_player.Queue.Table.{ids, has_id, is_seen}
use raspi_media_player.Queue.Shuffles.{Inserted, here, there, Shuffle, done, put}

-- Exactly one row has the id.
abbrev pub IsFound : List Row → String → Type 0
IsFound rows id = count (has_id id) rows ≡ 1

abbrev other_than : String → String → Bool
other_than id x = not (same x id)

keep-Absent :
    (id : String) (order : List String) → Absent id order → keep (other_than id) order ≡ order
keep-Absent id [] h = refl
keep-Absent id (x ∷ order) h = rw (same_ne x id h.0, keep-Absent id order h.1)

Absent-of_first : (id x : String) (order : List String) → x ≡ id → Absent x order → Absent id order
Absent-of_first id x order e h = subst (λ t. Absent t order) e h

length-drop-le :
    (id : String) (order : List String)
    → Distinct order
    → length order ≤ suc (length (keep (other_than id) order))
length-drop-le id [] d = omega arith
length-drop-le id (x ∷ order) d = elim (Bool-cases (same x id)) [
  | inl e ↦
      rw (e, keep-Absent id order (Absent-of_first id x order ((eq_iff x id).0 e) d.0))
        (omega arith)
  | inr e ↦ rw e (omega (arith, length-drop-le id order d.1))
]

length-drop :
    (id : String) (order : List String)
    → Distinct order
    → is_seen id order ≡ true
    → length order ≡ suc (length (keep (other_than id) order))
length-drop id [] d h = cc
length-drop id (x ∷ order) d h = elim (Bool-cases (same x id)) [
  | inl e ↦ rw (e, keep-Absent id order (Absent-of_first id x order ((eq_iff x id).0 e) d.0))
  | inr e ↦ rw e (ap suc (length-drop id order d.1 (rw e at h)))
]

-- An id of the table's tail is found there if it is not the first row's.
IsFound-in_tail :
    (r : Row) (rows : List Row) (x : String) → x ≢ r.id → IsFound (r ∷ rows) x → IsFound rows x
IsFound-in_tail r rows x n h = rw (same_ne r.id x (λ e. n (sym e))) at h

tail-IsFound :
    (r : Row) (rows : List Row) (order : List String)
    → All (IsFound (r ∷ rows)) order
    → All (IsFound rows) (keep (other_than r.id) order)
tail-IsFound r rows [] h = tt
tail-IsFound r rows (x ∷ order) h = elim (Bool-cases (same x r.id)) [
  | inl e ↦ rw e (tail-IsFound r rows order h.1)
  | inr e ↦
      rw e (
        IsFound-in_tail r rows x (λ p. cc ((eq_iff x r.id).1 p)) h.0,
        tail-IsFound r rows order h.1,
      )
]

keep-other-Distinct :
    (id : String) (order : List String) → Distinct order → Distinct (keep (other_than id) order)
keep-other-Distinct id order d = Pairwise-keep (λ s t. t ≢ s) (other_than id) order d

-- Different ids that are all found are no more than the rows.
length-found-le :
    (rows : List Row) (order : List String)
    → Distinct order
    → All (IsFound rows) order
    → length order ≤ length rows
length-found-le [] [] d h = omega arith
length-found-le [] (x ∷ order) d h = absurd (omega arith)
length-found-le (r ∷ rows) order d h = omega (
  arith,
  length-drop-le r.id order d,
  length-found-le rows (keep (other_than r.id) order) (keep-other-Distinct r.id order d)
      (tail-IsFound r rows order h),
)

not_seen-Absent : (id : String) (order : List String) → is_seen id order ≡ false → Absent id order
not_seen-Absent id [] h = tt
not_seen-Absent id (x ∷ order) h = elim (Bool-cases (same x id)) [
  | inl e ↦ cc (rw e at h)
  | inr e ↦ ((λ p. cc ((eq_iff x id).1 p)), not_seen-Absent id order (rw e at h))
]

-- As many ids as rows: the first row's id is one of them.
first_seen :
    (r : Row) (rows : List Row) (order : List String)
    → Distinct order
    → All (IsFound (r ∷ rows)) order
    → length order ≡ length (r ∷ rows)
    → is_seen r.id order ≡ true
first_seen r rows order d h e = elim (Bool-cases (is_seen r.id order)) [
  | inl seen ↦ seen
  | inr missing ↦
      let same_list = keep-Absent r.id order (not_seen-Absent r.id order missing) in
      let found =
        length-found-le rows order d
          (subst (All (IsFound rows)) same_list (tail-IsFound r rows order h)) in
      absurd (omega arith)
]

abbrev PutIn : Row → List Row → List String → Type 0
PutIn r m order = (n : List Row) × Inserted r m n × (ids n ≡ order)

put_behind :
    (r : Row) (x : String) (order : List String) (m : List Row)
    → ids m ≡ x ∷ keep (other_than r.id) order
    → ((m' : List Row) → ids m' ≡ keep (other_than r.id) order → PutIn r m' order)
    → PutIn r m (x ∷ order)
put_behind r x order [] e rest = cc
put_behind r x order (s ∷ m) e rest =
    let first : s.id ≡ x = cc in
    let later = rest m (cc) in (s ∷ later.0, there later.1, λ k. first k ∷ later.2 k)

put_in :
    (r : Row) (order : List String) (m : List Row)
    → Distinct order
    → is_seen r.id order ≡ true
    → ids m ≡ keep (other_than r.id) order
    → PutIn r m order
put_in r [] m d h e = cc
put_in r (x ∷ order) m d h e = elim (Bool-cases (same x r.id)) [
  | inl hit ↦
      let first = (eq_iff x r.id).0 hit in
      let after : ids m ≡ keep (other_than r.id) order = rw hit at e in
      let whole = after ∙ keep-Absent r.id order (Absent-of_first r.id x order first d.0) in
      (r ∷ m, here, λ k. sym first k ∷ whole k)
  | inr miss ↦
      put_behind r x order m (rw miss at e) (λ m' e'. put_in r order m' d.1 (rw miss at h) e')
]

-- The rows in the order that the ids give.
pub arrange :
    (rows : List Row) (order : List String)
    → Distinct order
    → All (IsFound rows) order
    → length order ≡ length rows
    → (m : List Row) × Shuffle rows m × (ids m ≡ order)
arrange [] [] d h e = ([], done, refl)
arrange [] (x ∷ order) d h e = absurd (omega arith)
arrange (r ∷ rows) order d h e =
    let seen = first_seen r rows order d h e in
    let rest =
      arrange rows (keep (other_than r.id) order) (keep-other-Distinct r.id order d)
        (tail-IsFound r rows order h) (omega (arith, length-drop r.id order d seen)) in
    let whole = put_in r order rest.0 d seen rest.2 in (whole.0, put rest.1 whole.1, whole.2)
