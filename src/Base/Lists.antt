-- ===== src/Base/Lists.antt =====
-- Lists measured by native numbers, and predicates on lists by recursion.
use Prim.Native.Nat.{ℕ, suc, ◌+◌, ◌≤◌, ◌<◌}
use mathlib.Core.Path.{◌≡◌, refl, sym, ap, subst, ◌∙◌}
use mathlib.Core.Logic.{◌≢◌, inl, inr}
use mathlib.Core.Bool.{Bool, true, false}
use mathlib.Core.Option.{Option, none, some}
use mathlib.Core.List.{List, [], ◌∷◌, ◌++◌, map}
use native.Mathlib.Omega.{arith}
use Prim.Native.String.{String}
use raspi_media_player.Base.Tests.{if◌then◌else◌, Bool-cases}

module _ {ℓ} {A : Type ℓ} where
  abbrev pub length : List A → ℕ
  length [] = 0
  length (x ∷ xs) = suc (length xs)

  -- The elements that pass a test, in their order.
  abbrev pub keep : (A → Bool) → List A → List A
  keep p [] = []
  keep p (x ∷ xs) = let rest = keep p xs in if p x then x ∷ rest else rest

  -- The number of elements that pass a test.
  abbrev pub count : (A → Bool) → List A → ℕ
  count p [] = 0
  count p (x ∷ xs) = let rest = count p xs in if p x then suc rest else rest

  abbrev pub All {κ} : (A → Type κ) → List A → Type κ
  All P [] = Unit
  All P (x ∷ xs) = P x × All P xs

  abbrev pub Pairwise {κ} : (A → A → Type κ) → List A → Type κ
  Pairwise R [] = Unit
  Pairwise R (x ∷ xs) = All (R x) xs × Pairwise R xs

module _ {ℓ} {A : Type ℓ} where
  pub length-append : (xs ys : List A) → length (xs ++ ys) ≡ length xs + length ys
  length-append [] ys = omega arith
  length-append (x ∷ xs) ys = omega (arith, length-append xs ys)

  pub length-map {κ} : {B : Type κ} (f : A → B) (xs : List A) → length (map f xs) ≡ length xs
  length-map f [] = refl
  length-map f (x ∷ xs) = ap suc (length-map f xs)

  pub length-keep-le : (p : A → Bool) (xs : List A) → length (keep p xs) ≤ length xs
  length-keep-le p [] = omega arith
  length-keep-le p (x ∷ xs) = ground (arith, length-keep-le p xs)

  pub length-keep : (p : A → Bool) (xs : List A) → length (keep p xs) ≡ count p xs
  length-keep p [] = refl
  length-keep p (x ∷ xs) = ground (arith, length-keep p xs)

  pub All-keep {κ} : (P : A → Type κ) (p : A → Bool) (xs : List A) → All P xs → All P (keep p xs)
  All-keep P p [] h = tt
  All-keep P p (x ∷ xs) h = ground (arith, All-keep P p xs h.1)

  pub All-map {κ μ} :
      {B : Type κ} (P : B → Type μ) (f : A → B) (xs : List A)
      → All (λ x. P (f x)) xs
      → All P (map f xs)
  All-map P f [] h = tt
  All-map P f (x ∷ xs) h = (h.0, All-map P f xs h.1)

  pub All-of_map {κ μ} :
      {B : Type κ} (P : B → Type μ) (f : A → B) (xs : List A)
      → All P (map f xs)
      → All (λ x. P (f x)) xs
  All-of_map P f [] h = tt
  All-of_map P f (x ∷ xs) h = (h.0, All-of_map P f xs h.1)

module _ {ℓ} {A : Type ℓ} where
  pub All-imp {κ μ} :
      {P : A → Type κ} {Q : A → Type μ} (xs : List A) → ((x : A) → P x → Q x) → All P xs → All Q xs
  All-imp [] f h = tt
  All-imp (x ∷ xs) f h = (f x h.0, All-imp xs f h.1)

  pub All-zip {κ μ ν} :
      {P : A → Type κ} {Q : A → Type μ} {R : A → Type ν} (xs : List A)
      → ((x : A) → P x → Q x → R x)
      → All P xs
      → All Q xs
      → All R xs
  All-zip [] f h k = tt
  All-zip (x ∷ xs) f h k = (f x h.0 k.0, All-zip xs f h.1 k.1)

-- No text of the list is the first argument.
abbrev pub Absent : String → List String → Type 0
Absent s = All (λ t. t ≢ s)

abbrev pub Distinct : List String → Type 0
Distinct = Pairwise (λ s t. t ≢ s)

module _ {ℓ κ} {A : Type ℓ} (R : A → A → Type κ) where
  pub Pairwise-keep : (p : A → Bool) (xs : List A) → Pairwise R xs → Pairwise R (keep p xs)
  Pairwise-keep p [] h = tt
  Pairwise-keep p (x ∷ xs) h = ground (arith, All-keep (R x) p xs h.0, Pairwise-keep p xs h.1)

module _ {ℓ κ} {A : Type ℓ} where
  pub All-append : (P : A → Type κ) (xs ys : List A) → All P xs → All P ys → All P (xs ++ ys)
  All-append P [] ys h k = k
  All-append P (x ∷ xs) ys h k = (h.0, All-append P xs ys h.1 k)

  pub Pairwise-append :
      (R : A → A → Type κ) (xs : List A) (y : A)
      → Pairwise R xs
      → All (λ x. R x y) xs
      → Pairwise R (xs ++ y ∷ [])
  Pairwise-append R [] y h k = (tt, tt)
  Pairwise-append R (x ∷ xs) y h k =
      (All-append (R x) xs (y ∷ []) h.0 (k.0, tt), Pairwise-append R xs y h.1 k.1)

pub Pairwise-imp {ℓ κ μ} :
    {A : Type ℓ} {R : A → A → Type κ} {S : A → A → Type μ} (xs : List A)
    → ((x y : A) → R x y → S x y)
    → Pairwise R xs
    → Pairwise S xs
Pairwise-imp [] f h = tt
Pairwise-imp (x ∷ xs) f h = (All-imp xs (λ y. f x y) h.0, Pairwise-imp xs f h.1)

module _ {ℓ κ μ} {A : Type ℓ} {B : Type κ} (R : B → B → Type μ) (f : A → B) where
  pub Pairwise-map : (xs : List A) → Pairwise (λ x y. R (f x) (f y)) xs → Pairwise R (map f xs)
  Pairwise-map [] h = tt
  Pairwise-map (x ∷ xs) h = (All-map (R (f x)) f xs h.0, Pairwise-map xs h.1)

  pub Pairwise-of_map : (xs : List A) → Pairwise R (map f xs) → Pairwise (λ x y. R (f x) (f y)) xs
  Pairwise-of_map [] h = tt
  Pairwise-of_map (x ∷ xs) h = (All-of_map (R (f x)) f xs h.0, Pairwise-of_map xs h.1)

module _ {ℓ} {A : Type ℓ} (p : A → Bool) where
  pub count-keep-le : (q : A → Bool) (xs : List A) → count p (keep q xs) ≤ count p xs
  count-keep-le q [] = omega arith
  count-keep-le q (x ∷ xs) = ground (arith, count-keep-le q xs)

  pub count-append : (xs ys : List A) → count p (xs ++ ys) ≡ count p xs + count p ys
  count-append [] ys = omega arith
  count-append (x ∷ xs) ys = ground (arith, count-append xs ys)

  pub count-All-false : (xs : List A) → All (λ x. p x ≡ false) xs → count p xs ≡ 0
  count-All-false [] h = refl
  count-All-false (x ∷ xs) h = rw h.0 (count-All-false xs h.1)

module _ {ℓ κ} {A : Type ℓ} {B : Type κ} where
  pub count-map :
      (p : B → Bool) (f : A → B) (xs : List A) → count p (map f xs) ≡ count (λ x. p (f x)) xs
  count-map p f [] = refl
  count-map p f (x ∷ xs) = rw (count-map p f xs)

  -- A change that leaves what the test reads keeps the number.
  pub count-map_keep :
      (f : A → B) (p : A → Bool) (q : B → Bool) (xs : List A)
      → ((x : A) → q (f x) ≡ p x)
      → count q (map f xs) ≡ count p xs
  count-map_keep f p q [] h = refl
  count-map_keep f p q (x ∷ xs) h = rw (h x, count-map_keep f p q xs h) refl

  -- A change that leaves what the test reads commutes with the test.
  pub map-keep :
      (f : A → B) (p : A → Bool) (q : B → Bool) (xs : List A)
      → All (λ x. q (f x) ≡ p x) xs
      → keep q (map f xs) ≡ map f (keep p xs)
  map-keep f p q [] h = refl
  map-keep f p q (x ∷ xs) h = elim (Bool-cases (p x)) [
    | inl e ↦ rw (h.0, e, map-keep f p q xs h.1)
    | inr e ↦ rw (h.0, e, map-keep f p q xs h.1)
  ]

pub map_fuse {ℓ κ μ} :
    {A : Type ℓ} {B : Type κ} {C : Type μ} (f : A → B) (g : B → C) (xs : List A)
    → map g (map f xs) ≡ map (λ x. g (f x)) xs
map_fuse f g [] = refl
map_fuse f g (x ∷ xs) = ap (◌∷◌ (g (f x))) (map_fuse f g xs)

module _ {ℓ} {A : Type ℓ} where
  -- A test that no element passes.
  pub count-none : (p : A → Bool) (xs : List A) → count p xs ≡ 0 → All (λ x. p x ≡ false) xs
  count-none p [] h = tt
  count-none p (x ∷ xs) h = ground (arith, count-none p xs)

  -- The elements differ in a key.
  abbrev pub Differ {κ} : {K : Type κ} → (A → K) → List A → Type κ
  Differ key = Pairwise (λ x y. key y ≢ key x)

module _ {ℓ κ} {A : Type ℓ} {K : Type κ} (key : A → K) where
  pub map-Differ :
      (f : A → A) (xs : List A)
      → ((x : A) → key (f x) ≡ key x)
      → Differ key xs
      → Differ key (map f xs)
  map-Differ f xs keeps h =
      Pairwise-map (λ x y. key y ≢ key x) f xs
        (Pairwise-imp xs (λ x y differ same. differ (cc (same, keeps x, keeps y))) h)

  pub append-Differ :
      (xs : List A) (y : A)
      → Differ key xs
      → All (λ x. key y ≢ key x) xs
      → Differ key (xs ++ y ∷ [])
  append-Differ xs y h new = Pairwise-append (λ x y. key y ≢ key x) xs y h new

module _ {ℓ} {A : Type ℓ} where
  -- The first element that passes a test.
  abbrev pub first : (A → Bool) → List A → Option A
  first p [] = none
  first p (x ∷ xs) = let rest = first p xs in if p x then some x else rest

module _ {ℓ} {A : Type ℓ} (p : A → Bool) where
  pub first-some : (xs : List A) → count p xs ≢ 0 → (x : A) × (first p xs ≡ some x)
  first-some [] h = absurd (h refl)
  first-some (x ∷ xs) h = elim (Bool-cases (p x)) [
    | inl e ↦ (x, rw e refl)
    | inr e ↦ let (y, found) = first-some xs (rw e at h) in (y, rw e found)
  ]

  pub first-passes : (xs : List A) {x : A} → first p xs ≡ some x → p x ≡ true
  first-passes [] h = cc h
  first-passes (x ∷ xs) {x = y} h = elim (Bool-cases (p x)) [
    | inl e ↦ subst (λ z. p z ≡ true) (some-eq (rw e at h)) e
    | inr e ↦ first-passes xs (rw e at h)
  ]
    where
      some-eq : some x ≡ some y → x ≡ y
      some-eq h = cc h

  pub first-All {κ} : (P : A → Type κ) (xs : List A) {x : A} → All P xs → first p xs ≡ some x → P x
  first-All P [] h e = cc e
  first-All P (y ∷ xs) {x} h e = elim (Bool-cases (p y)) [
    | inl t ↦ subst P (some-eq (rw t at e)) h.0
    | inr t ↦ first-All P xs h.1 (rw t at e)
  ]
    where
      some-eq : some y ≡ some x → y ≡ x
      some-eq h = cc h

  pub first-counted : (xs : List A) {x : A} → first p xs ≡ some x → count p xs ≢ 0
  first-counted [] h = cc h
  first-counted (x ∷ xs) h = elim (Bool-cases (p x)) [
    | inl e ↦ rw e (omega arith)
    | inr e ↦ rw e (first-counted xs (rw e at h))
  ]

  pub first-counted_by :
      (q : A → Bool) (xs : List A) {x : A} → first p xs ≡ some x → q x ≡ true → count q xs ≢ 0
  first-counted_by q [] h e = cc h
  first-counted_by q (y ∷ xs) {x} h e = elim (Bool-cases (p y)) [
    | inl t ↦ rw (subst (λ z. q z ≡ true) (same_element (rw t at h)) e) (omega arith)
    | inr t ↦ more (q y) (first-counted_by q xs (rw t at h) e)
  ]
    where
      same_element : some y ≡ some x → x ≡ y
      same_element h = cc h

      more : (b : Bool) → count q xs ≢ 0 → (if b then suc (count q xs) else count q xs) ≢ 0
      more true h = omega arith
      more false h = h

  pub first-append : (xs ys : List A) {x : A} → first p xs ≡ some x → first p (xs ++ ys) ≡ some x
  first-append [] ys h = cc h
  first-append (x ∷ xs) ys h = elim (Bool-cases (p x)) [
    | inl e ↦ rw e (rw e at h)
    | inr e ↦ rw e (first-append xs ys (rw e at h))
  ]

  pub first-fresh :
      (xs : List A) (y : A) → count p xs ≡ 0 → p y ≡ true → first p (xs ++ y ∷ []) ≡ some y
  first-fresh [] y h e = rw e refl
  first-fresh (x ∷ xs) y h e = ground (arith, first-fresh xs y)

  pub first-map :
      (f : A → A) (xs : List A) {x : A}
      → ((y : A) → p (f y) ≡ p y)
      → first p xs ≡ some x
      → first p (map f xs) ≡ some (f x)
  first-map f [] keeps h = cc h
  first-map f (y ∷ xs) {x} keeps h = elim (Bool-cases (p y)) [
    | inl e ↦ rw (keeps y, e) (ap (mapped) (rw e at h))
    | inr e ↦ rw (keeps y, e) (first-map f xs keeps (rw e at h))
  ]
    where
      mapped : Option A → Option A
      mapped none = none
      mapped (some z) = some (f z)

module _ {ℓ κ} {A : Type ℓ} {B : Type κ} (f : A → B) (p : A → Bool) (q : B → Bool) where
  -- A change that makes no element pass the test.
  pub count-map_le :
      (xs : List A) → ((x : A) → q (f x) ≡ true → p x ≡ true) → count q (map f xs) ≤ count p xs
  count-map_le [] h = omega arith
  count-map_le (x ∷ xs) h = step (q (f x)) (p x) (h x) (count-map_le xs h)
    where
      step :
          (b a : Bool) {m n : ℕ}
          → (b ≡ true → a ≡ true)
          → m ≤ n
          → (if b then suc m else m) ≤ (if a then suc n else n)
      step true true h le = omega (arith, le)
      step true false h le = cc (h refl)
      step false true h le = omega (arith, le)
      step false false h le = le

  -- And that makes some element fail it.
  pub count-map_lt :
      (r : A → Bool) (xs : List A)
      → ((x : A) → q (f x) ≡ true → p x ≡ true)
      → ((x : A) → r x ≡ true → (p x ≡ true) × (q (f x) ≡ false))
      → count r xs ≢ 0
      → count q (map f xs) < count p xs
  count-map_lt r [] h drops some_r = absurd (some_r refl)
  count-map_lt r (x ∷ xs) h drops some_r = elim (Bool-cases (r x)) [
    | inl e ↦
        let (before, after) = drops x e in rw (before, after) (omega (arith, count-map_le xs h))
    | inr e ↦ step (q (f x)) (p x) (h x) (count-map_lt r xs h drops (rw e at some_r))
  ]
    where
      step :
          (b a : Bool) {m n : ℕ}
          → (b ≡ true → a ≡ true)
          → m < n
          → (if b then suc m else m) < (if a then suc n else n)
      step true true h lt = omega (arith, lt)
      step true false h lt = cc (h refl)
      step false true h lt = omega (arith, lt)
      step false false h lt = lt

module _ {ℓ} {A : Type ℓ} (p : A → Bool) where
  pub keep-append_out : (xs : List A) (y : A) → p y ≡ false → keep p (xs ++ y ∷ []) ≡ keep p xs
  keep-append_out [] y e = rw e refl
  keep-append_out (x ∷ xs) y e = elim (Bool-cases (p x)) [
    | inl t ↦ rw t (ap (◌∷◌ x) (keep-append_out xs y e))
    | inr t ↦ rw t (keep-append_out xs y e)
  ]

  -- A selection that every kept element passes takes nothing from them.
  pub keep-keep_out :
      (q : A → Bool) (xs : List A)
      → ((x : A) → q x ≡ false → p x ≡ false)
      → keep p (keep q xs) ≡ keep p xs
  keep-keep_out q [] h = refl
  keep-keep_out q (x ∷ xs) h = elim (Bool-cases (q x)) [
    | inl t ↦ rw t (both (p x) (keep-keep_out q xs h))
    | inr t ↦ rw (t, h x t) (keep-keep_out q xs h)
  ]
    where
      both :
          (b : Bool) {ys zs : List A}
          → ys ≡ zs
          → (if b then x ∷ ys else ys) ≡ (if b then x ∷ zs else zs)
      both true e = ap (◌∷◌ x) e
      both false e = e

  -- A change of other elements.
  pub keep-map_out {κ} :
      {B : Type κ} (g : A → B) (f : A → A) (xs : List A)
      → ((x : A) → p (f x) ≡ p x)
      → ((x : A) → p x ≡ true → g (f x) ≡ g x)
      → map g (keep p (map f xs)) ≡ map g (keep p xs)
  keep-map_out g f [] h k = refl
  keep-map_out g f (x ∷ xs) h k = elim (Bool-cases (p x)) [
    | inl t ↦ rw (h x, t, k x t, keep-map_out g f xs h k) refl
    | inr t ↦ rw (h x, t) (keep-map_out g f xs h k)
  ]

map_self {ℓ} : {A : Type ℓ} (xs : List A) → map (λ x. x) xs ≡ xs
map_self [] = refl
map_self (x ∷ xs) = ap (◌∷◌ x) (map_self xs)

-- A change of elements that are not kept.
pub keep-map_other {ℓ} :
    {A : Type ℓ} (p : A → Bool) (f : A → A) (xs : List A)
    → ((x : A) → p (f x) ≡ p x)
    → ((x : A) → p x ≡ true → f x ≡ x)
    → keep p (map f xs) ≡ keep p xs
keep-map_other p f xs h k =
    sym (map_self (keep p (map f xs))) ∙ keep-map_out p (λ x. x) f xs h k ∙ map_self (keep p xs)
