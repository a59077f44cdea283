-- ===== src/AutoQueue/Ages.antt =====
-- internal/autoqueue/engine.go: `fairUser` in terms of times.
use raspi_media_player.Base.{
  ℕ, String, Bool, true, false, not, ◌≡◌, refl, ap, ◌∙◌, Option, none, some, List, [], ◌∷◌, ◌||◌,
  All, keep, map, ltb, Bool-cases, inl, inr, same, if◌then◌else◌, comes_before, text_ltb, codes,
}
use raspi_media_player.AutoQueue.Turns.{Turn, turn_of, is_none, fair_candidates}
use raspi_media_player.AutoQueue.Fairness.{is_preceded, fair_candidates-unpreceded, keep-alike}

pub record TimedTurn : Type 0 where
  pub user : String
  pub at : ℕ

-- The row of a turn, with the text that the program formats its time as.
abbrev pub recorded : (ℕ → String) → TimedTurn → Turn
recorded shown t = record { user_id = t.user; last_selected_at = shown t.at }

abbrev pub time_of : String → List TimedTurn → Option ℕ
time_of id [] = none
time_of id (t ∷ turns) = let later = time_of id turns in if same t.user id then some t.at else later

-- The one has waited longer than the other: the last turn is older, or there was none.
abbrev pub is_older : Option ℕ → Option ℕ → Bool
is_older none none = false
is_older none (some n) = true
is_older (some m) none = false
is_older (some m) (some n) = ltb m n

abbrev pub is_outwaited : List TimedTurn → List String → String → Bool
is_outwaited turns [] id = false
is_outwaited turns (x ∷ users) id =
    is_older (time_of x turns) (time_of id turns) || is_outwaited turns users id

-- The texts of the turns are in the order of the times, and none is empty.
pub record IsOrderly (shown : ℕ → String) (turns : List TimedTurn) : Type 0 where
  pub in_order :
      All (λ t. All (λ u. comes_before (shown t.at) (shown u.at) ≡ ltb t.at u.at) turns) turns
  pub not_empty : All (λ t. comes_before "" (shown t.at) ≡ true) turns

module _ (shown : ℕ → String) where
  -- What is known of the turn of a user.
  data Looked (P : TimedTurn → Type 0) (id : String) (turns : List TimedTurn) : Type 0 where
    absent :
        time_of id turns ≡ none → turn_of id (map (recorded shown) turns) ≡ "" → Looked P id turns
    present :
        (t : TimedTurn)
        → P t
        → time_of id turns ≡ some t.at
        → turn_of id (map (recorded shown) turns) ≡ shown t.at
        → Looked P id turns

  look :
      (P : TimedTurn → Type 0) (id : String) (turns : List TimedTurn)
      → All P turns
      → Looked P id turns
  look P id [] h = absent refl refl
  look P id (t ∷ turns) h = elim (Bool-cases (same t.user id)) [
    | inl e ↦ present t h.0 (rw e refl) (rw e refl)
    | inr e ↦ further e (look P id turns h.1)
  ]
    where
      further : same t.user id ≡ false → Looked P id turns → Looked P id (t ∷ turns)
      further e (absent a b) = absent (rw e a) (rw e b)
      further e (present u p a b) = present u p (rw e a) (rw e b)

  module _ (turns : List TimedTurn) (o : IsOrderly shown turns) where
    abbrev rows : List Turn
    rows = map (recorded shown) turns

    before-IsOlder :
        (x id : String)
        → comes_before (turn_of x rows) (turn_of id rows)
          ≡ is_older (time_of x turns) (time_of id turns)
    before-IsOlder x id = by_first (look _ x turns o.in_order) (look _ id turns o.not_empty)
      where
        never : (cs : List ℕ) → text_ltb cs [] ≡ false
        never [] = refl
        never (c ∷ cs) = refl

        by_second :
            (t : TimedTurn)
            → time_of x turns ≡ some t.at
            → turn_of x rows ≡ shown t.at
            → Looked (λ u. comes_before (shown t.at) (shown u.at) ≡ ltb t.at u.at) id turns
            → comes_before (turn_of x rows) (turn_of id rows)
              ≡ is_older (time_of x turns) (time_of id turns)
        by_second t a b (absent c d) = rw (a, b, c, d) (never (codes (shown t.at)))
        by_second t a b (present u p c d) = rw (a, b, c, d) p

        by_first :
            Looked
              (λ t. All (λ u. comes_before (shown t.at) (shown u.at) ≡ ltb t.at u.at) turns)
              x
              turns
            → Looked (λ u. comes_before "" (shown u.at) ≡ true) id turns
            → comes_before (turn_of x rows) (turn_of id rows)
              ≡ is_older (time_of x turns) (time_of id turns)
        by_first (absent a b) (absent c d) = rw (a, b, c, d) refl
        by_first (absent a b) (present u p c d) = rw (a, b, c, d) p
        by_first (present t row a b) second = by_second t a b (look _ id turns row)

    preceded-outwaited :
        (users : List String) (id : String)
        → is_preceded rows users id ≡ is_outwaited turns users id
    unfolding is_preceded
    preceded-outwaited [] id = refl
    preceded-outwaited (x ∷ users) id = rw (before-IsOlder x id, preceded-outwaited users id) refl

-- Where the texts of the turns sort as their times do, the users that `fairUser` picks from are exactly those that
-- no other has waited longer than, where one without a turn has waited longer than one with a turn; there
-- is one to pick.
pub fair_candidates-oldest :
    (shown : ℕ → String) (turns : List TimedTurn) (first : String) (users : List String)
    → IsOrderly shown turns
    → let all = first ∷ users in
      let candidates = fair_candidates (map (recorded shown) turns) all in
      (candidates ≡ keep (λ id. not (is_outwaited turns all id)) all) × (is_none candidates ≡ false)
fair_candidates-oldest shown turns first users o =
    let all = first ∷ users in
    let (exact, some_user) = fair_candidates-unpreceded (map (recorded shown) turns) first users in
    (
      exact
          ∙ keep-alike (λ id. not (is_preceded (map (recorded shown) turns) all id))
              (λ id. not (is_outwaited turns all id)) all (everywhere all all),
      some_user,
    )
  where
    everywhere :
        (all ids : List String)
        → All
            (λ id.
              not (is_preceded (map (recorded shown) turns) all id)
              ≡ not (is_outwaited turns all id))
            ids
    everywhere all [] = tt
    everywhere all (id ∷ ids) =
        (ap not (preceded-outwaited shown turns o all id), everywhere all ids)
