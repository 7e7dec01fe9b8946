-- ===== src/Symbol/Values/Slices.antt =====
-- The slices that the readings of src/symbol/tree.rs and src/symbol/map.rs take, where the bytes reach.
use openstar_ads.Common.{
  ℕ, zero, suc, ◌+◌, ◌*◌, ◌^◌, ◌≤◌, ◌<◌, ◌≡◌, refl, List, [], ◌∷◌, some, length, take, drop, All,
  arith, le→ltb, length-drop, length-take, All-take,
}
use openstar_ads.Error.{ok}
use openstar_ads.Wire.{le_value, split_at, IsByte}
use openstar_ads.Wire.Laws.{le_value-lt}
use openstar_ads.Symbol.Values.{SymbolTree, read_from_prefix, slice_to, read_words, accessible}

pub accessible_in :
    (bytes : List ℕ) (offset : ℕ) (read : List ℕ → openstar_ads.Error.Result SymbolTree)
    → offset ≤ length bytes
    → accessible bytes offset read ≡ read (drop offset bytes)
accessible_in bytes offset read h = rw (le→ltb (length bytes) offset h) refl

pub length-drop_ge :
    (bytes : List ℕ) (offset n : ℕ) → offset + n ≤ length bytes → n ≤ length (drop offset bytes)
length-drop_ge bytes offset n h = omega (arith, length-drop offset bytes)

pub read_from_prefix_in :
    (k : ℕ) (bytes : List ℕ)
    → k ≤ length bytes
    → read_from_prefix k bytes ≡ some (le_value (take k bytes))
unfolding read_from_prefix
read_from_prefix_in k bytes h = rw (le→ltb (length bytes) k h) refl

pub take-lt :
    (k : ℕ) (bytes : List ℕ)
    → k ≤ length bytes
    → All IsByte bytes
    → le_value (take k bytes) < 256 ^ k
take-lt k bytes h small =
    let n : length (take k bytes) ≡ k = omega (arith, length-take k bytes) in
    le_value-lt k (take k bytes) n (All-take IsByte k bytes small)

pub slice_to_in : (n : ℕ) (bytes : List ℕ) → n ≤ length bytes → slice_to n bytes ≡ ok (take n bytes)
unfolding slice_to split_at
slice_to_in n bytes h = rw (le→ltb (length bytes) n h) refl

-- The words of as many bytes as there are.
abbrev pub words_of : ℕ → List ℕ → List ℕ
words_of zero bytes = []
words_of (suc n) bytes = le_value (take 2 bytes) ∷ words_of n (drop 2 bytes)

pub read_words_in :
    (n : ℕ) (bytes : List ℕ) → 2 * n ≤ length bytes → read_words n bytes ≡ ok (words_of n bytes)
unfolding read_words split_at
read_words_in zero bytes h = refl
read_words_in (suc n) bytes h = rw (
  le→ltb (length bytes) 2 (omega arith),
  read_words_in n (drop 2 bytes) (omega (arith, length-drop 2 bytes)),
)
