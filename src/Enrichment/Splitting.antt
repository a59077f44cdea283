-- ===== src/Enrichment/Splitting.antt =====
-- What `ParseTitle` of internal/enrichment/enrichment.go takes for artist and title.
use Prim.Native.Char.{Char, code}
use Prim.Native.String as Text
use Prim.Native.String.append
use text.Mathlib.TextEquality.{Char-path}
use raspi_media_player.Base.{
  ℕ, suc, String, Bool, count, true, false, ◌≡◌, ◌≢◌, ◌⊎◌, refl, sym, ap, ◌∙◌, Option, none, some,
  List, [], ◌∷◌, ◌==◌, Bool-cases, inl, inr, same, eq_iff, if◌then◌else◌, trim, is_space, arith,
}
use raspi_media_player.Enrichment.Titles.{
  cleaned_title, after_prefix, cut_here, cut, sides, separators, first_split, hint_of, parse_title,
}

after_prefix-append : (p s : String) {t : String} → after_prefix p s ≡ some t → s ≡ Text.◌++◌ p t
after_prefix-append String.[] s {t} h = some_eq h ∙ sym (append.nil t)
  where
    some_eq : {a b : String} → some a ≡ some b → a ≡ b
    some_eq h = cc h
after_prefix-append (String.◌∷◌ p ps) String.[] h = cc h
after_prefix-append (String.◌∷◌ p ps) (String.◌∷◌ c s) {t} h =
    elim (Bool-cases (code p == code c)) [
      | inl e ↦
          let same_char : c ≡ p = Char-path c p (ground arith) in
          (λ k. String.◌∷◌ (same_char k) (after_prefix-append ps s (rw e at h) k))
          ∙ sym (append.cons p ps t)
      | inr e ↦ cc (rw e at h)
    ]

-- What a text is in front of a separator and behind it.
data IsCut (separator s : String) : Option (String × String) → Type 0 where
  uncut : IsCut separator s none
  cut_at :
      {before t : String}
      → s ≡ Text.◌++◌ before (Text.◌++◌ separator t)
      → IsCut separator s (some (before, t))

cut_here-IsCut :
    (separator : String) (c : Char) (s : String) (found : Option String)
    (later : Option (String × String))
    → after_prefix separator (String.◌∷◌ c s) ≡ found
    → IsCut separator s later
    → IsCut separator (String.◌∷◌ c s) (cut_here c found later)
cut_here-IsCut separator c s (some t) later h k =
    cut_at
      (after_prefix-append separator (String.◌∷◌ c s) h ∙ sym (append.nil (Text.◌++◌ separator t)))
cut_here-IsCut separator c s none none h k = uncut
cut_here-IsCut separator c s none (some (before, t)) h (cut_at e) =
    cut_at (ap (String.◌∷◌ c) e ∙ sym (append.cons c before (Text.◌++◌ separator t)))

cut-IsCut : (separator s : String) → IsCut separator s (cut separator s)
cut-IsCut separator String.[] = uncut
cut-IsCut separator (String.◌∷◌ c s) =
    cut_here-IsCut separator c s (after_prefix separator (String.◌∷◌ c s)) (cut separator s) refl
      (cut-IsCut separator s)

-- The artist stands in front of one of the separators and the title behind it, neither of them empty.
pub record IsSplit (known : List String) (s artist title : String) : Type 0 where
  pub before : String
  pub separator : String
  pub behind : String
  pub listed : count (λ x. same x separator) known ≢ 0
  pub whole : s ≡ Text.◌++◌ before (Text.◌++◌ separator behind)
  pub artist_trimmed : artist ≡ trim is_space before
  pub title_trimmed : title ≡ trim is_space behind
  pub some_artist : same artist "" ≡ false
  pub some_title : same title "" ≡ false

data Splits (known : List String) (s : String) : Option (String × String) → Type 0 where
  unsplit : Splits known s none
  split :
      {artist title : String} → IsSplit known s artist title → Splits known s (some (artist, title))

sides-Splits :
    (separator : String) (rest : List String) (s : String) {o : Option (String × String)}
    → IsCut separator s o
    → Splits (separator ∷ rest) s (sides o)
sides-Splits separator rest s uncut = unsplit
sides-Splits separator rest s (cut_at {before} {t} e) =
    elim (Bool-cases (same (trim is_space before) "")) [
      | inl no_artist ↦ rw no_artist unsplit
      | inr some_artist ↦ elim (Bool-cases (same (trim is_space t) "")) [
        | inl no_title ↦ rw (some_artist, no_title) unsplit
        | inr some_title ↦
            rw (some_artist, some_title)
              (split (record {
                before = before;
                separator = separator;
                behind = t;
                listed = rw ((eq_iff separator separator).1 refl) (λ z. omega arith);
                whole = e;
                artist_trimmed = refl;
                title_trimmed = refl;
                some_artist = some_artist;
                some_title = some_title;
              }))
      ]
    ]

Splits-cons :
    (x : String) (known : List String) (s : String) {o : Option (String × String)}
    → Splits known s o
    → Splits (x ∷ known) s o
Splits-cons x known s unsplit = unsplit
Splits-cons x known s (split h) = split (record {
  before = h.before;
  separator = h.separator;
  behind = h.behind;
  listed = more (same x h.separator) h.listed;
  whole = h.whole;
  artist_trimmed = h.artist_trimmed;
  title_trimmed = h.title_trimmed;
  some_artist = h.some_artist;
  some_title = h.some_title;
})
  where
    more : (b : Bool) {n : ℕ} → n ≢ 0 → (if b then suc n else n) ≢ 0
    more true h = λ z. omega arith
    more false h = h

first_split-Splits : (known : List String) (s : String) → Splits known s (first_split known s)
first_split-Splits [] s = unsplit
first_split-Splits (separator ∷ rest) s =
    choose (sides (cut separator s)) (sides-Splits separator rest s (cut-IsCut separator s))
      (Splits-cons separator rest s (first_split-Splits rest s))
  where
    choose :
        (o : Option (String × String)) {later : Option (String × String)}
        → Splits (separator ∷ rest) s o
        → Splits (separator ∷ rest) s later
        → Splits (separator ∷ rest) s (elim o [ some pair ↦ some pair | none ↦ later ])
    choose none h k = k
    choose (some pair) h k = h

-- The hint names no artist and keeps the whole cleaned title, or it is one of the splits of the cleaned title at
-- a dash between spaces, with nothing empty.
pub parse_title-splits :
    (replace : String → String) (raw : String)
    → let hint = parse_title replace raw in
      let s = cleaned_title replace raw in
      ((hint.artist ≡ "") × (hint.title ≡ s)) ⊎ IsSplit separators s hint.artist hint.title
unfolding parse_title
parse_title-splits replace raw =
    let s = cleaned_title replace raw in
    go s (first_split separators s) (first_split-Splits separators s)
  where
    go :
        (s : String) (o : Option (String × String))
        → Splits separators s o
        → (((hint_of o s raw).artist ≡ "") × ((hint_of o s raw).title ≡ s))
          ⊎ IsSplit separators s (hint_of o s raw).artist (hint_of o s raw).title
    go s none h = inl (refl, refl)
    go s (some pair) (split h) = inr h
