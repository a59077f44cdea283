-- ===== src/Queue/Line.antt =====
-- What listeners see of the queue of internal/queue/store.go: a revision, and ids in their order. The
-- rows, their positions and their statuses are forgotten.
use raspi_media_player.Base.{
  ℕ, String, Bool, not, ◌≡◌, ◌≢◌, ◌<◌, ◌+◌, none, some, List, [], ◌∷◌, ◌++◌, All, count, keep,
  length, Distinct, same,
}
use raspi_media_player.Queue.Rows.{Db}
use raspi_media_player.Queue.Calls.{Call, adds, removes, clears, skips, reorders, finishes}
use raspi_media_player.Queue.Traces.{queue_ids}

pub record Line : Type 0 where
  pub revision : ℕ
  pub ids : List String

abbrev pub line : Db → Line
line db = record { revision = db.state.revision; ids = queue_ids db }

abbrev pub is_named : String → String → Bool
is_named id x = same x id

abbrev pub IsWaiting : String → Line → Type 0
IsWaiting id l = count (is_named id) l.ids ≢ 0

-- Every id of the line, once.
pub record Permutes (order : List String) (l : Line) : Type 0 where
  pub different : Distinct order
  pub waiting : All (λ x. count (is_named x) l.ids ≡ 1) order
  pub as_many : length order ≡ length l.ids

-- What a call needs of the line.
abbrev pub Accepts : Call → Line → Type 0
Accepts (adds a) l = (count (is_named a.id) l.ids ≡ 0) × (length l.ids < a.limit)
Accepts (removes id seen) l = (seen ≡ l.revision) × IsWaiting id l
Accepts (clears seen) l = seen ≡ l.revision
Accepts (skips seen) l = (seen ≡ l.revision) × (length l.ids ≢ 0)
Accepts (reorders order seen) l = (seen ≡ l.revision) × Permutes order l
Accepts (finishes id failure) l = IsWaiting id l
Accepts _ l = Unit

abbrev pub rest : List String → List String
rest [] = []
rest (x ∷ xs) = xs

abbrev pub raised : Line → List String → Line
raised l order = record { revision = l.revision + 1; ids = order }

abbrev pub others : String → List String → List String
others id = keep (λ x. not (is_named id x))

-- What a call makes of the line.
abbrev pub moved : Call → Line → Line
moved (adds a) l = raised l (l.ids ++ a.id ∷ [])
moved (removes id seen) l = raised l (others id l.ids)
moved (clears seen) l = raised l []
moved (skips seen) l = raised l (rest l.ids)
moved (reorders order seen) l = raised l order
moved (finishes id none) l = raised l (others id l.ids)
moved (finishes id (some message)) l = raised l l.ids
moved _ l = l

-- When a call may fail: a change of the queue by a listener only where it is not accepted.
abbrev pub MayFail : Call → Line → Type 0
MayFail (removes id seen) l = ¬ Accepts (removes id seen) l
MayFail (clears seen) l = ¬ Accepts (clears seen) l
MayFail (skips seen) l = ¬ Accepts (skips seen) l
MayFail (reorders order seen) l = ¬ Accepts (reorders order seen) l
MayFail _ l = Unit

-- A run of the abstract queue: each call moves the line or fails and leaves it.
pub data Walk : List Call → Line → Line → Type 0 where
  rests : {l : Line} → Walk [] l l
  moves :
      {c : Call} {cs : List Call} {l l' : Line}
      → Accepts c l
      → Walk cs (moved c l) l'
      → Walk (c ∷ cs) l l'
  fails :
      {c : Call} {cs : List Call} {l l' : Line} → MayFail c l → Walk cs l l' → Walk (c ∷ cs) l l'
