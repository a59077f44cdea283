-- ===== src/Api/Limiter.antt =====
-- internal/app/queue.go: `rateLimiter`, a fixed window for each client. The time is an argument.
use raspi_media_player.Base.{
  ℕ, suc, ◌+◌, ◌-◌, ◌≤◌, ◌<◌, ◌≡◌, ◌≢◌, refl, ap, ◌∙◌, length, String, Bool, true, false, Option,
  none, some, List, [], ◌∷◌, All, leb, if◌then◌else◌, lookup, insert, lookup-insert_self,
  lookup-insert_ne, Bool-cases, inl, inr, arith,
}

pub record RateWindow : Type 0 where
  pub start : ℕ
  pub count : ℕ

pub record RateLimiter : Type 0 where
  pub limit : ℕ
  pub window : ℕ
  pub clients : List (String × RateWindow)

-- A client without a window, or with one that is over, starts a new one.
abbrev pub window_at : ℕ → ℕ → Option RateWindow → RateWindow
window_at window now none = record { start = now; count = 0 }
window_at window now (some w) =
    if leb (w.start + window) now then record { start = now; count = 0 } else w

unfoldable pub allow : String → ℕ → RateLimiter → RateLimiter × Bool
allow key now l =
    let w = window_at l.window now (lookup key l.clients) in
    if leb l.limit w.count
    then (l, false)
    else (record l { clients = insert key (record w { count = w.count + 1 }) l.clients }, true)

-- The requests of one client, at these times: how many are allowed.
unfoldable pub allowed : String → List ℕ → RateLimiter → ℕ
allowed key [] l = 0
allowed key (now ∷ times) l =
    let (l', ok) = allow key now l in
    let rest = allowed key times l' in if ok then suc rest else rest

-- The smaller of two numbers.
abbrev pub least : ℕ → ℕ → ℕ
least m n = if leb m n then m else n

-- What is left of the budget of a client in the window that it is in.
abbrev IsOpen : RateLimiter → String → ℕ → ℕ → Type 0
IsOpen l key start used = lookup key l.clients ≡ some (record { start = start; count = used })

allowed-open :
    (key : String) (times : List ℕ) (l : RateLimiter) (start used : ℕ)
    → IsOpen l key start used
    → All (λ t. t < start + l.window) times
    → allowed key times l ≡ least (l.limit - used) (length times)
unfolding allowed allow
allowed-open key [] l start used h inside = nothing (l.limit - used)
  where
    nothing : (n : ℕ) → 0 ≡ least n 0
    nothing n = ground arith
allowed-open key (now ∷ times) l start used h inside = elim (Bool-cases (leb l.limit used)) [
  | inl full ↦
      rw (h, before start l.window now inside.0, full)
        (allowed-open key times l start used h inside.1 ∙ spent l.limit used (length times) full)
  | inr room ↦
      let used_up : RateWindow = record { start = start; count = used + 1 } in
      let l' : RateLimiter = record l { clients = insert key used_up l.clients } in
      let rest =
        allowed-open key times l' start (used + 1) (lookup-insert_self key used_up l.clients)
          inside.1 in
      rw (h, before start l.window now inside.0, room)
        (ap suc rest ∙ one_more l.limit used (length times) room)
]
  where
    before : (start window now : ℕ) → now < start + window → leb (start + window) now ≡ false
    before start window now h = ground arith

    spent :
        (limit used n : ℕ)
        → leb limit used ≡ true
        → least (limit - used) n ≡ least (limit - used) (suc n)
    spent limit used n h = ground arith

    one_more :
        (limit used n : ℕ)
        → leb limit used ≡ false
        → suc (least (limit - (used + 1)) n) ≡ least (limit - used) (suc n)
    one_more limit used n h = ground arith

-- A client that has no window, or one that is over.
pub data IsOver (l : RateLimiter) (key : String) (now : ℕ) : Type 0 where
  unseen : lookup key l.clients ≡ none → IsOver l key now
  ended :
      (w : RateWindow) → lookup key l.clients ≡ some w → w.start + l.window ≤ now → IsOver l key now

fresh_window :
    (l : RateLimiter) (key : String) (now : ℕ)
    → IsOver l key now
    → window_at l.window now (lookup key l.clients) ≡ record { start = now; count = 0 }
fresh_window l key now (unseen h) = rw h refl
fresh_window l key now (ended w h e) = rw (h, over (w.start + l.window) now e) refl
  where
    over : (m n : ℕ) → m ≤ n → leb m n ≡ true
    over m n h = ground arith

IsOver-later :
    {l : RateLimiter} {key : String} {now later : ℕ}
    → now ≤ later
    → IsOver l key now
    → IsOver l key later
IsOver-later h (unseen e) = unseen e
IsOver-later h (ended w e o) = ended w e (omega (arith, h, o))

-- Without a budget nothing is allowed, and no window is stored.
allowed-closed :
    (key : String) (start : ℕ) (times : List ℕ) (l : RateLimiter)
    → IsOver l key start
    → leb l.limit 0 ≡ true
    → All (λ t. start ≤ t) times
    → allowed key times l ≡ 0
unfolding allowed allow
allowed-closed key start [] l h closed late = refl
allowed-closed key start (now ∷ times) l h closed late =
    rw (fresh_window l key now (IsOver-later late.0 h), closed)
      (allowed-closed key start times l h closed late.1)

-- A client without a window, or with one that is over, sends requests from a moment on, all before a
-- window from that moment is over: as many are allowed as the limit says, or all of them where they are
-- fewer.
pub allowed-least :
    (key : String) (start : ℕ) (times : List ℕ) (l : RateLimiter)
    → IsOver l key start
    → All (λ t. start ≤ t) times
    → All (λ t. t < start + l.window) times
    → allowed key (start ∷ times) l ≡ least l.limit (suc (length times))
unfolding allowed allow
allowed-least key start times l h late inside = elim (Bool-cases (leb l.limit 0)) [
  | inl closed ↦
      rw (fresh_window l key start h, closed)
        (allowed-closed key start times l h closed late ∙ shut l.limit (length times) closed)
  | inr room ↦
      let first : RateWindow = record { start = start; count = 1 } in
      let l' : RateLimiter = record l { clients = insert key first l.clients } in
      let rest =
        allowed-open key times l' start 1 (lookup-insert_self key first l.clients) inside in
      rw (fresh_window l key start h, room) (ap suc rest ∙ opened l.limit (length times) room)
]
  where
    shut : (limit n : ℕ) → leb limit 0 ≡ true → 0 ≡ least limit (suc n)
    shut limit n h = ground arith

    opened : (limit n : ℕ) → leb limit 0 ≡ false → suc (least (limit - 1) n) ≡ least limit (suc n)
    opened limit n h = ground arith

-- A request of one client leaves the budget of every other.
pub allow-other_client :
    (key other : String) (now : ℕ) (l : RateLimiter)
    → other ≢ key
    → lookup other (allow key now l).0.clients ≡ lookup other l.clients
unfolding allow
allow-other_client key other now l h =
    let w = window_at l.window now (lookup key l.clients) in
    elim (Bool-cases (leb l.limit w.count)) [
      | inl closed ↦ rw closed refl
      | inr room ↦
          rw room (lookup-insert_ne key other (record w { count = w.count + 1 }) l.clients h)
    ]
