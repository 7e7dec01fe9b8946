-- ===== src/Symbol/Values/Runs.antt =====
-- Examples of values that are read by a type tree.
use openstar_ads.Common.{ℕ, ◌≡◌, refl, List, [], ◌∷◌, true, Option, some, All, arith}
use openstar_ads.Error.{ok, panic}
use openstar_ads.Wire.{IsByte}
use openstar_ads.NetId.Split.{split}
use openstar_ads.Symbol.{Text}
use openstar_ads.Symbol.Tree.{SymbolTypeTree, child, end, get_size}
use openstar_ads.Symbol.Tree.Samples.{two_types, s_tree, s_tree_built}
use openstar_ads.Symbol.Tree.Flat.{SymbolTypeMap, from_tree, int_value}
use openstar_ads.Symbol.Values.{SymbolTree, value, no_value, from_bytes, get_child}
use openstar_ads.Symbol.Values.Utf16.{from_utf16_lossy}
use openstar_ads.Symbol.Values.Primitive.{SymbolMap, PrimitiveValue, f32_to_f64}
use openstar_ads.Symbol.Values.Primitive
use openstar_ads.Symbol.Values.Types.{Sized, HasType}
use openstar_ads.Symbol.Values.Places.{At, locate}
use openstar_ads.Symbol.Values.Names.{has_path}
use openstar_ads.Symbol.Values.Maps.{HasValue, from_bytes-from_tree}
use openstar_ads.Symbol.Values.Built.{get_child-from_bytes, from_bytes-HasType}

-- Decoders for the examples: texts and extended floats stay as they are, and a date is its year.
abbrev lossy : List ℕ → Text
lossy bytes = bytes

abbrev to_f64 : List ℕ → ℕ
to_f64 bytes = 0

abbrev year_only : ℕ → ℕ → ℕ → ℕ → ℕ → ℕ → ℕ → Option ℕ
year_only year month day hour minute second milliseconds = some year

abbrev four_bytes : List ℕ
four_bytes = 1 ∷ 0 ∷ 2 ∷ 1 ∷ []

abbrev s_value : SymbolTree
s_value = SymbolTree.struct (
    value (b'x' ∷ []) (SymbolTree.int 1) (
      value (b't' ∷ []) (SymbolTree.struct (value (b'x' ∷ []) (SymbolTree.int 258) no_value))
        no_value))

s_value_read : from_bytes lossy to_f64 four_bytes s_tree 0 ≡ ok s_value
unfolding from_bytes openstar_ads.Symbol.Values.insert_value
    openstar_ads.Symbol.Values.read_from_prefix openstar_ads.Wire.le_value
s_value_read = refl

-- A string that the bytes do not reach over makes the reading panic.
short_string : from_bytes lossy to_f64 four_bytes (SymbolTypeTree.string 5) 0 ≡ panic
unfolding from_bytes openstar_ads.Symbol.Values.slice_to openstar_ads.Wire.split_at
short_string = refl

s_tree-Sized : Sized s_tree
unfolding Sized get_size
s_tree-Sized = (omega arith, tt, (omega arith, (omega arith, tt, tt), tt))

get_child-from_bytes_example :
    At lossy to_f64 four_bytes
      (locate (split b'.' (b't' ∷ b'.' ∷ b'x' ∷ [])) s_tree 0)
      (get_child s_value (b't' ∷ b'.' ∷ b'x' ∷ []))
get_child-from_bytes_example =
    get_child-from_bytes lossy to_f64 two_types 3 65 4 (b'S' ∷ []) s_tree s_tree_built four_bytes 0
      s_value (b't' ∷ b'.' ∷ b'x' ∷ []) s_value_read

from_bytes-HasType_example :
    (v : SymbolTree) × (from_bytes lossy to_f64 four_bytes s_tree 0 ≡ ok v) × HasType s_tree v
from_bytes-HasType_example =
    from_bytes-HasType lossy to_f64 two_types 3 65 4 (b'S' ∷ []) s_tree s_tree_built four_bytes 0
      s_tree-Sized (unfold get_size in omega arith)
      (omega arith, (omega arith, (omega arith, (omega arith, tt))))

abbrev s_map : SymbolTypeMap
s_map =
    (b'x' ∷ [], record { symbol_type = int_value; root_symbol_offset = 0 })
    ∷ (b't' ∷ b'.' ∷ b'x' ∷ [], record { symbol_type = int_value; root_symbol_offset = 2 })
    ∷ []

s_map_listed : from_tree s_tree 0 [] ≡ ok s_map
unfolding from_tree openstar_ads.Symbol.Tree.Flat.append openstar_ads.Symbol.Tree.Flat.insert_entry
s_map_listed = refl

from_bytes-from_tree_example :
    (result : SymbolMap ℕ) × (Primitive.from_bytes lossy to_f64 year_only four_bytes s_map
      ≡ ok result)
    × All (HasValue year_only s_value) result
    × All (λ entry. has_path entry.0 result ≡ true) s_map
from_bytes-from_tree_example =
    from_bytes-from_tree year_only lossy to_f64 four_bytes two_types 3 65 4 (b'S' ∷ []) s_tree s_map
      s_value s_tree_built s_tree-Sized (unfold get_size in omega arith) (omega arith) s_map_listed
      s_value_read

-- A surrogate pair, and one that is not paired.
two_surrogates :
    from_utf16_lossy (55357 ∷ 56832 ∷ 55357 ∷ 65 ∷ [])
    ≡ 240 ∷ 159 ∷ 152 ∷ 128 ∷ 239 ∷ 191 ∷ 189 ∷ 65 ∷ []
unfolding from_utf16_lossy openstar_ads.Symbol.Values.Utf16.utf8
two_surrogates = refl

-- 1.5, and the least positive number of 32 bits, as floats of 64 bits.
widened : (f32_to_f64 1069547520 ≡ 4609434218613702656) × (f32_to_f64 1 ≡ 3936146074321813504)
unfolding f32_to_f64
widened = (refl, refl)
