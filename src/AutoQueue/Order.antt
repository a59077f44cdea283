-- ===== src/AutoQueue/Order.antt =====
-- The order of the texts that internal/autoqueue/engine.go compares.
use Prim.Native.Char.{code}
use text.Mathlib.TextEquality.{Char-path}
use raspi_media_player.Base.{
  ℕ, String, Bool, true, false, ◌≡◌, refl, List, [], ◌∷◌, same, eq_iff, comes_before, text_ltb,
  codes, same_codes, same_codes-eq, arith,
}

pub text_ltb_trans :
    (cs ds es : List ℕ) → text_ltb cs ds ≡ true → text_ltb ds es ≡ true → text_ltb cs es ≡ true
text_ltb_trans cs ds [] h k = cc k
text_ltb_trans [] ds (e ∷ es) h k = refl
text_ltb_trans (c ∷ cs) [] (e ∷ es) h k = cc h
text_ltb_trans (c ∷ cs) (d ∷ ds) (e ∷ es) h k = ground (arith, text_ltb_trans cs ds es)

text_ltb_total :
    (cs ds : List ℕ) → text_ltb cs ds ≡ false → same_codes cs ds ≡ false → text_ltb ds cs ≡ true
text_ltb_total [] [] h n = cc n
text_ltb_total [] (d ∷ ds) h n = cc h
text_ltb_total (c ∷ cs) [] h n = refl
text_ltb_total (c ∷ cs) (d ∷ ds) h n = ground (arith, text_ltb_total cs ds)

pub text_ltb_irrefl : (cs : List ℕ) → text_ltb cs cs ≡ false
text_ltb_irrefl [] = refl
text_ltb_irrefl (c ∷ cs) = ground (arith, text_ltb_irrefl cs)

codes_injective : (s t : String) → codes s ≡ codes t → s ≡ t
codes_injective String.[] String.[] h = refl
codes_injective String.[] (String.◌∷◌ d t) h = cc h
codes_injective (String.◌∷◌ c s) String.[] h = cc h
codes_injective (String.◌∷◌ c s) (String.◌∷◌ d t) h =
    let head : code c ≡ code d = cc h in
    let rest : codes s ≡ codes t = cc h in
    λ k. String.◌∷◌ (Char-path c d head k) (codes_injective s t rest k)

pub comes_before_total :
    (s t : String) → comes_before s t ≡ false → same s t ≡ false → comes_before t s ≡ true
comes_before_total s t h n =
    text_ltb_total (codes s) (codes t) h (apart (same_codes (codes s) (codes t)) refl)
  where
    apart : (b : Bool) → same_codes (codes s) (codes t) ≡ b → same_codes (codes s) (codes t) ≡ false
    apart true e =
        cc (n, (eq_iff s t).1 (codes_injective s t (same_codes-eq (codes s) (codes t) e)))
    apart false e = e
