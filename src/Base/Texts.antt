-- ===== src/Base/Texts.antt =====
-- What the code uses of Go's `strings` and `len`: trimming, and the length of a text in bytes.
use Prim.Native.Nat.{ℕ, ◌+◌}
use Prim.Native.Char.{code}
use Prim.Native.String.{String}
use Prim.Native.String as Text
use Prim.Native.String.append
use mathlib.Core.Bool.{Bool, true, false, ◌&&◌, ◌||◌}
use mathlib.Core.List.{List, [], ◌∷◌, ◌++◌}
use mathlib.Core.Path.{◌≡◌, refl, ap, ◌∙◌}
use native.Mathlib.Omega.{arith}
use raspi_media_player.Base.Numerals.{codes}
use raspi_media_player.Base.Tests.{if◌then◌else◌, leb, ltb, ◌==◌, same}

-- `unicode.IsSpace`
abbrev pub is_space : ℕ → Bool
is_space c =
    leb 9 c && leb c 13
    || c == 32
    || c == 0x85
    || c == 0xA0
    || c == 0x1680
    || leb 0x2000 c && leb c 0x200A
    || c == 0x2028
    || c == 0x2029
    || c == 0x202F
    || c == 0x205F
    || c == 0x3000

abbrev pub is_quote : ℕ → Bool
is_quote c = c == b'"'

abbrev pub trim_left : (ℕ → Bool) → String → String
trim_left drops String.[] = ""
trim_left drops (String.◌∷◌ c s) =
    let rest = trim_left drops s in if drops (code c) then rest else String.◌∷◌ c s

abbrev pub trim_right : (ℕ → Bool) → String → String
trim_right drops String.[] = ""
trim_right drops (String.◌∷◌ c s) =
    let rest = trim_right drops s in
    if drops (code c) && same rest "" then "" else String.◌∷◌ c rest

abbrev pub trim : (ℕ → Bool) → String → String
trim drops s = trim_right drops (trim_left drops s)

abbrev pub utf8_length : ℕ → ℕ
utf8_length c =
    if ltb c 0x80 then 1 else (if ltb c 0x800 then 2 else (if ltb c 0x10000 then 3 else 4))

-- `len` of a text.
abbrev pub byte_length : String → ℕ
byte_length String.[] = 0
byte_length (String.◌∷◌ c s) = utf8_length (code c) + byte_length s

abbrev pub lower_code : ℕ → ℕ
lower_code c = if leb b'A' c && leb c b'Z' then c + 32 else c

-- The order of texts as SQLite and Go compare them: byte by byte, which is the order of code points.
abbrev pub text_ltb : List ℕ → List ℕ → Bool
text_ltb cs [] = false
text_ltb [] (d ∷ ds) = true
text_ltb (c ∷ cs) (d ∷ ds) = let rest = text_ltb cs ds in if ltb c d then true else c == d && rest

abbrev pub comes_before : String → String → Bool
comes_before s t = text_ltb (codes s) (codes t)

abbrev pub same_codes : List ℕ → List ℕ → Bool
same_codes [] [] = true
same_codes [] (d ∷ ds) = false
same_codes (c ∷ cs) [] = false
same_codes (c ∷ cs) (d ∷ ds) = c == d && same_codes cs ds

pub same_codes_self : (cs : List ℕ) → same_codes cs cs ≡ true
same_codes_self [] = refl
same_codes_self (c ∷ cs) = ground (arith, same_codes_self cs)

pub same_codes-eq : (cs ds : List ℕ) → same_codes cs ds ≡ true → cs ≡ ds
same_codes-eq [] [] h = refl
same_codes-eq [] (d ∷ ds) h = cc h
same_codes-eq (c ∷ cs) [] h = cc h
same_codes-eq (c ∷ cs) (d ∷ ds) h =
    let head : c ≡ d = ground arith in
    let tail : cs ≡ ds = same_codes-eq cs ds (ground arith) in rw (head, tail) refl

pub codes-append : (s t : String) → codes (Text.◌++◌ s t) ≡ codes s ++ codes t
codes-append String.[] t = ap codes (append.nil t)
codes-append (String.◌∷◌ c s) t =
    ap codes (append.cons c s t) ∙ ap (◌∷◌ (code c)) (codes-append s t)
