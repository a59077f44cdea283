-- ===== src/AutoQueue/Fairness.antt =====
-- internal/autoqueue/engine.go: `fairUser` picks by the order of texts.
use raspi_media_player.Base.{
  ℕ, suc, String, Bool, true, false, not, ◌≡◌, ◌≢◌, refl, sym, ap, subst, ◌∙◌, List, [], ◌∷◌, ◌++◌,
  ◌||◌, All, All-append, All-imp, keep-append_out, if_split, count, count-append, keep, Bool-cases,
  inl, inr, same, eq_iff, if◌then◌else◌, comes_before, codes, arith,
}
use raspi_media_player.AutoQueue.Order.{text_ltb_trans, text_ltb_irrefl, comes_before_total}
use raspi_media_player.AutoQueue.Turns.{
  Turn, turn_of, Choice, is_none, considered, consider_all, fair_candidates,
}

-- The text of some user of a list comes before that of the user.
unfoldable pub is_preceded : List Turn → List String → String → Bool
is_preceded turns [] id = false
is_preceded turns (x ∷ users) id =
    comes_before (turn_of x turns) (turn_of id turns) || is_preceded turns users id

module _ (turns : List Turn) where
  -- The users seen so far: none of their turns is older than the oldest, and the candidates have it.
  data Seen : List String → Choice → Type 0 where
    nobody : {c : Choice} → c.candidates ≡ [] → Seen [] c
    somebody :
        {seen : List String} {c : Choice}
        → All (λ x. comes_before (turn_of x turns) c.oldest ≡ false) seen
        → c.candidates ≡ keep (λ x. same (turn_of x turns) c.oldest) seen
        → count (λ x. same (turn_of x turns) c.oldest) seen ≢ 0
        → Seen seen c

module _ {ℓ} {A : Type ℓ} where
  keep-append_in :
      (p : A → Bool) (xs : List A) (y : A)
      → p y ≡ true
      → keep p (xs ++ y ∷ []) ≡ keep p xs ++ y ∷ []
  keep-append_in p [] y e = rw e refl
  keep-append_in p (x ∷ xs) y e = elim (Bool-cases (p x)) [
    | inl t ↦ rw t (ap (◌∷◌ x) (keep-append_in p xs y e))
    | inr t ↦ rw t (keep-append_in p xs y e)
  ]

  keep-none : (p : A → Bool) (xs : List A) → All (λ x. p x ≡ false) xs → keep p xs ≡ []
  keep-none p [] h = refl
  keep-none p (x ∷ xs) h = rw h.0 (keep-none p xs h.1)

  pub keep-alike : (p q : A → Bool) (xs : List A) → All (λ x. p x ≡ q x) xs → keep p xs ≡ keep q xs
  keep-alike p q [] h = refl
  keep-alike p q (x ∷ xs) h = elim (Bool-cases (q x)) [
    | inl e ↦ rw (h.0, e, keep-alike p q xs h.1) refl
    | inr e ↦ rw (h.0, e, keep-alike p q xs h.1) refl
  ]

  append_one : (xs : List A) (y : A) (ys : List A) → (xs ++ y ∷ []) ++ ys ≡ xs ++ y ∷ ys
  append_one [] y ys = refl
  append_one (x ∷ xs) y ys = ap (◌∷◌ x) (append_one xs y ys)

  count-last : (p : A → Bool) (xs : List A) (y : A) → p y ≡ true → count p (xs ++ y ∷ []) ≢ 0
  count-last p [] y e = rw e (λ z. omega arith)
  count-last p (x ∷ xs) y e = λ z. count-last p xs y e (omega (arith, later (p x) z))
    where
      later : (b : Bool) {n : ℕ} → (if b then suc n else n) ≡ 0 → n ≡ 0
      later true z = absurd (omega (arith, z))
      later false z = z

is_none-keep : (p : String → Bool) (xs : List String) → count p xs ≢ 0 → is_none (keep p xs) ≡ false
is_none-keep p [] h = absurd (h refl)
is_none-keep p (x ∷ xs) h = elim (Bool-cases (p x)) [
  | inl e ↦ rw e refl
  | inr e ↦ rw e (is_none-keep p xs (rw e at h))
]

self : (s : String) → same s s ≡ true
self s = (eq_iff s s).1 refl

before_or_not : (b : Bool) → (b ≡ true → false ≡ true) → b ≡ false
before_or_not true h = cc (h refl)
before_or_not false h = refl

module _ (turns : List Turn) where
  step-Seen :
      (id : String) (seen : List String) (c : Choice)
      → Seen turns seen c
      → Seen turns (seen ++ id ∷ []) (considered turns id c)
  step-Seen id seen c (nobody e) =
      let at = turn_of id turns in
      rw e (
        somebody (text_ltb_irrefl (codes at), tt) (rw (self at) refl)
          (rw (self at) (λ z. omega arith)))
  step-Seen id seen c (somebody least chosen some_user) =
      let at = turn_of id turns in
      let is_at = λ (o : String) (x : String). same (turn_of x turns) o in
      if_split (Seen turns (seen ++ id ∷ [])) (is_none c.candidates || comes_before at c.oldest) _ _
        (λ e.
          let older : comes_before at c.oldest ≡ true =
            by_age (is_none c.candidates) (comes_before at c.oldest)
              (ap is_none chosen ∙ is_none-keep (is_at c.oldest) seen some_user) e in
          let least_now =
            All-imp seen
              (λ x h. before_or_not (comes_before (turn_of x turns) at) (λ k.
                sym h
                ∙ text_ltb_trans (codes (turn_of x turns)) (codes at) (codes c.oldest) k older))
              least in
          let none_at =
            All-imp seen
              (λ x h. before_or_not (same (turn_of x turns) at) (λ k.
                sym h
                ∙ subst (λ t. comes_before t c.oldest ≡ true)
                    (sym ((eq_iff (turn_of x turns) at).0 k)) older))
              least in
          somebody
            (All-append (λ x. comes_before (turn_of x turns) at ≡ false) seen (id ∷ []) least_now
              (text_ltb_irrefl (codes at), tt))
            (sym (
              keep-append_in (is_at at) seen id (self at)
              ∙ ap (λ l. l ++ id ∷ []) (keep-none (is_at at) seen none_at)))
            (count-last (is_at at) seen id (self at)))
        (λ e.
          let younger : comes_before at c.oldest ≡ false =
            not_either (is_none c.candidates) (comes_before at c.oldest) e in
          let least_now =
            All-append (λ x. comes_before (turn_of x turns) c.oldest ≡ false) seen (id ∷ []) least
              (younger, tt) in
          if_split (Seen turns (seen ++ id ∷ [])) (same at c.oldest) _ _
            (λ t.
              somebody least_now
                (ap (λ l. l ++ id ∷ []) chosen ∙ sym (keep-append_in (is_at c.oldest) seen id t))
                (count-last (is_at c.oldest) seen id t))
            (λ f.
              somebody least_now (chosen ∙ sym (keep-append_out (is_at c.oldest) seen id f))
                (λ z. some_user (omega (arith, count-append (is_at c.oldest) seen (id ∷ []), z)))))
    where
      by_age : (a b : Bool) → a ≡ false → (a || b) ≡ true → b ≡ true
      by_age true b h k = cc h
      by_age false b h k = k

      not_either : (a b : Bool) → (a || b) ≡ false → b ≡ false
      not_either true b h = cc h
      not_either false b h = h

module _ (turns : List Turn) where
  all-Seen :
      (users seen : List String) (c : Choice)
      → Seen turns seen c
      → Seen turns (seen ++ users) (consider_all turns users c)
  all-Seen [] seen c h = subst (λ l. Seen turns l c) (sym (append_nil seen)) h
    where
      append_nil : (xs : List String) → xs ++ [] ≡ xs
      append_nil [] = refl
      append_nil (x ∷ xs) = ap (◌∷◌ x) (append_nil xs)
  all-Seen (id ∷ users) seen c h =
      subst (λ l. Seen turns l (consider_all turns users (considered turns id c)))
        (append_one seen id users)
        (all-Seen users (seen ++ id ∷ []) (considered turns id c) (step-Seen turns id seen c h))

  unpreceded :
      (users : List String) (o id : String)
      → All (λ x. comes_before (turn_of x turns) o ≡ false) users
      → turn_of id turns ≡ o
      → is_preceded turns users id ≡ false
  unfolding is_preceded
  unpreceded [] o id h e = refl
  unpreceded (x ∷ users) o id h e = rw (e, h.0, unpreceded users o id h.1 e) refl

  preceded :
      (users : List String) (o id : String)
      → count (λ x. same (turn_of x turns) o) users ≢ 0
      → comes_before o (turn_of id turns) ≡ true
      → is_preceded turns users id ≡ true
  unfolding is_preceded
  preceded [] o id h e = absurd (h refl)
  preceded (x ∷ users) o id h e = elim (Bool-cases (same (turn_of x turns) o)) [
    | inl t ↦ rw ((eq_iff (turn_of x turns) o).0 t, e) refl
    | inr f ↦
        or_true (comes_before (turn_of x turns) (turn_of id turns))
          (preceded users o id (rw f at h) e)
  ]
    where
      or_true : (a : Bool) {b : Bool} → b ≡ true → (a || b) ≡ true
      or_true true h = refl
      or_true false h = h

  alike :
      (users : List String) (o id : String)
      → All (λ x. comes_before (turn_of x turns) o ≡ false) users
      → count (λ x. same (turn_of x turns) o) users ≢ 0
      → comes_before (turn_of id turns) o ≡ false
      → same (turn_of id turns) o ≡ not (is_preceded turns users id)
  alike users o id least some_user h = elim (Bool-cases (same (turn_of id turns) o)) [
    | inl e ↦ rw (e, unpreceded users o id least ((eq_iff (turn_of id turns) o).0 e)) refl
    | inr e ↦
        rw (e, preceded users o id some_user (comes_before_total (turn_of id turns) o h e)) refl
  ]

-- Of some users, those that `fairUser` picks from are exactly the ones whose text of the last turn no text of
-- another comes before, byte by byte, where the empty text stands for no turn; there is one to pick.
pub fair_candidates-unpreceded :
    (turns : List Turn) (first : String) (users : List String)
    → let all = first ∷ users in
      (fair_candidates turns all ≡ keep (λ id. not (is_preceded turns all id)) all)
      × (is_none (fair_candidates turns all) ≡ false)
unfolding fair_candidates
fair_candidates-unpreceded turns first users =
    go (first ∷ users) _ (λ e. cc e)
      (all-Seen turns (first ∷ users) [] _
        (nobody {c = record { oldest = ""; candidates = [] }} refl))
  where
    go :
        (all : List String) (c : Choice)
        → ¬ (all ≡ [])
        → Seen turns all c
        → (c.candidates ≡ keep (λ id. not (is_preceded turns all id)) all)
          × (is_none c.candidates ≡ false)
    go all c some (nobody e) = absurd (some refl)
    go all c some (somebody least chosen some_user) = (
      chosen
          ∙ keep-alike (λ x. same (turn_of x turns) c.oldest) (λ id. not (is_preceded turns all id))
              all (All-imp all (λ x h. alike turns all c.oldest x least some_user h) least),
      ap is_none chosen ∙ is_none-keep (λ x. same (turn_of x turns) c.oldest) all some_user,
    )
