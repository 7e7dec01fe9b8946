-- ===== src/Symbol/Values/Utf16.antt =====
-- `String::from_utf16_lossy`, on which src/symbol/tree.rs and src/symbol/map.rs call for wide strings.
use openstar_ads.Common.{
  ℕ, ◌+◌, ◌-◌, ◌*◌, ◌/◌, ◌%◌, List, [], ◌∷◌, ◌++◌, Bool, ◌&&◌, leb, ltb, if◌then◌else◌,
}
use openstar_ads.Symbol.{Text}

-- The UTF-8 bytes of a character.
abbrev pub continuation : ℕ → ℕ
continuation n = 128 + n % 64

unfoldable pub utf8 : ℕ → Text
utf8 c =
    if ltb c 128
    then c ∷ []
    else if ltb c 2048
    then (192 + c / 64) ∷ continuation c ∷ []
    else if ltb c 65536
    then (224 + c / 4096) ∷ continuation (c / 64) ∷ continuation c ∷ []
    else (240 + c / 262144) ∷ continuation (c / 4096) ∷ continuation (c / 64) ∷ continuation c ∷ []

abbrev pub is_high : ℕ → Bool
is_high unit = leb 55296 unit && ltb unit 56320

abbrev pub is_low : ℕ → Bool
is_low unit = leb 56320 unit && ltb unit 57344

-- A unit that stands alone: a surrogate is replaced by U+FFFD.
abbrev pub lone : ℕ → Text
lone unit = if leb 55296 unit && ltb unit 57344 then utf8 65533 else utf8 unit

unfoldable pub from_utf16_lossy : List ℕ → Text
unfolding utf8
from_utf16_lossy [] = []
from_utf16_lossy (u ∷ []) = lone u
from_utf16_lossy (u ∷ v ∷ units) =
    let paired = from_utf16_lossy units in
    let single = from_utf16_lossy (v ∷ units) in
    if is_high u && is_low v
    then utf8 (65536 + (u - 55296) * 1024 + (v - 56320)) ++ paired
    else lone u ++ single
