-- ===== src/Enrichment/Cleaning.antt =====
-- The loop of `ParseTitle` in internal/enrichment/enrichment.go ends.
use Prim.Native.Char.{Char, code}
use raspi_media_player.Base.{
  ℕ, zero, suc, String, Bool, false, ◌≡◌, ◌≤◌, ◌<◌, refl, ◌&&◌, Bool-cases, inl, inr, same, eq_iff,
  trim, trim_left, trim_right, is_space, arith,
}
use raspi_media_player.Enrichment.Titles.{
  size, next_title, strip_suffixes, cleaned_title, join_words, fields,
}

-- A text that is the same, or shorter.
pub data Shrinks (s : String) : String → Type 0 where
  unchanged : Shrinks s s
  shorter : {t : String} → size t < size s → Shrinks s t

Shrinks-le : {s t : String} → Shrinks s t → size t ≤ size s
Shrinks-le unchanged = omega arith
Shrinks-le (shorter h) = omega (arith, h)

Shrinks-trans : {s t u : String} → Shrinks s t → Shrinks t u → Shrinks s u
Shrinks-trans unchanged b = b
Shrinks-trans (shorter h) b = shorter (omega (arith, h, Shrinks-le b))

Shrinks-cons : (c : Char) {s t : String} → Shrinks s t → Shrinks (String.◌∷◌ c s) (String.◌∷◌ c t)
Shrinks-cons c unchanged = unchanged
Shrinks-cons c (shorter h) = shorter (omega (arith, h))

module _ (drops : ℕ → Bool) where
  trim_left-Shrinks : (s : String) → Shrinks s (trim_left drops s)
  trim_left-Shrinks String.[] = unchanged
  trim_left-Shrinks (String.◌∷◌ c s) = elim (Bool-cases (drops (code c))) [
    | inl e ↦ rw e (shorter (omega (arith, Shrinks-le (trim_left-Shrinks s))))
    | inr e ↦ rw e unchanged
  ]

  pub trim_right-Shrinks : (s : String) → Shrinks s (trim_right drops s)
  trim_right-Shrinks String.[] = unchanged
  trim_right-Shrinks (String.◌∷◌ c s) =
      elim (Bool-cases (drops (code c) && same (trim_right drops s) "")) [
        | inl e ↦ rw e (shorter (omega arith))
        | inr e ↦ rw e (Shrinks-cons c (trim_right-Shrinks s))
      ]

trim-Shrinks : (s : String) → Shrinks s (trim is_space s)
trim-Shrinks s =
    Shrinks-trans (trim_left-Shrinks is_space s)
      (trim_right-Shrinks is_space (trim_left is_space s))

module _ (replace : String → String) (cuts : (s : String) → Shrinks s (replace s)) where
  next-Shrinks : (s : String) → Shrinks s (next_title replace s)
  next-Shrinks s = Shrinks-trans (cuts s) (trim-Shrinks (replace s))

  smaller : {s t : String} → Shrinks s t → same t s ≡ false → size t < size s
  smaller {s} unchanged e = cc (e, (eq_iff s s).1 refl)
  smaller (shorter h) e = h

  settled_at :
      (fuel : ℕ) (s : String)
      → size s ≤ fuel
      → next_title replace (strip_suffixes fuel replace s) ≡ strip_suffixes fuel replace s
  settled_at zero s h = empty (next-Shrinks s)
    where
      empty : {t : String} → Shrinks s t → t ≡ s
      empty unchanged = refl
      empty (shorter less) = absurd (omega (arith, less, h))
  settled_at (suc fuel) s h = elim (Bool-cases (same (next_title replace s) s)) [
    | inl e ↦ rw e ((eq_iff (next_title replace s) s).0 e)
    | inr e ↦
        rw e (settled_at fuel (next_title replace s) (omega (arith, h, smaller (next-Shrinks s) e)))
  ]

  -- More fuel changes nothing.
  enough :
      (fuel more : ℕ) (s : String)
      → size s ≤ fuel
      → fuel ≤ more
      → strip_suffixes more replace s ≡ strip_suffixes fuel replace s
  enough zero zero s h le = refl
  enough zero (suc more) s h le =
      rw ((eq_iff (next_title replace s) s).1 (settled_at zero s h)) refl
  enough (suc fuel) zero s h le = absurd (omega (arith, le))
  enough (suc fuel) (suc more) s h le = elim (Bool-cases (same (next_title replace s) s)) [
    | inl e ↦ rw e refl
    | inr e ↦ rw e (
        enough fuel more (next_title replace s) (omega (arith, h, smaller (next-Shrinks s) e))
          (omega (arith, le)))
  ]

  -- Where deleting the matches leaves a text as it is or shorter, the loop over the suffixes ends within
  -- the fuel it is given: one round more changes nothing, and no more fuel gives another text.
  pub cleaned_title-settled :
      (raw : String) (more : ℕ)
      → size (trim is_space (join_words (fields raw))) ≤ more
      → (next_title replace (cleaned_title replace raw) ≡ cleaned_title replace raw)
        × (strip_suffixes more replace (trim is_space (join_words (fields raw)))
            ≡ cleaned_title replace raw)
  unfolding cleaned_title
  cleaned_title-settled raw more h =
      let text = trim is_space (join_words (fields raw)) in
      (settled_at (size text) text (omega arith), enough (size text) more text (omega arith) h)
