-- ===== src/Symbol/Values.antt =====
-- src/symbol/tree.rs: `SymbolTree`, the values of a symbol, as they are read from its bytes.
-- A signed number is the unsigned one of the same bits, and so is a float.
pub mod Utf16
pub mod Primitive
pub mod Slices
pub mod Ordered
pub mod Types
pub mod Typed
pub mod Leaves
pub mod Places
pub mod Paths
pub mod Built
pub mod Names
pub mod Listed
pub mod Listing
pub mod Agree
pub mod Times
pub mod Maps
pub mod Visit
mod Runs
use openstar_ads.Common.{
  ℕ, zero, suc, ◌+◌, ◌*◌, ◌/◌, ◌%◌, List, [], ◌∷◌, Bool, true, false, not, Option, none, some, ltb,
  ◌==◌, if◌then◌else◌, length, take, drop,
}
use openstar_ads.Error.{Result, ok, panic, ◌>>=◌}
use openstar_ads.Wire.{le_value, split_at}
use openstar_ads.NetId.Split.{split}
use openstar_ads.Symbol.{Text, same_text}
use openstar_ads.Symbol.Tree.{SymbolTypeTree, Children, end, child}
use openstar_ads.Symbol.Values.Utf16.{from_utf16_lossy}

mutual
  pub data SymbolTree : Type 0 where
    missing malformed unknown : SymbolTree
    struct : Values → SymbolTree
    array : Elements → SymbolTree
    void : List ℕ → SymbolTree
    int dint real lreal sint usint uint udint lint ulint real80 : ℕ → SymbolTree
    string : Text → SymbolTree
    bool : Bool → SymbolTree

  -- `IndexMap<String, SymbolTree>`, in the order of its insertions.
  pub data Values : Type 0 where
    no_value : Values
    value : Text → SymbolTree → Values → Values

  -- `Vec<SymbolTree>`.
  pub data Elements : Type 0 where
    no_element : Elements
    element : SymbolTree → Elements → Elements

-- `IndexMap::insert`, which keeps the place of a name that is there, and `get`.
unfoldable pub insert_value : Text → SymbolTree → Values → Values
insert_value name v no_value = value name v no_value
insert_value name v (value n w rest) =
    let more = insert_value name v rest in
    if same_text n name then value n v rest else value n w more

unfoldable pub find_value : Text → Values → Option SymbolTree
find_value name no_value = none
find_value name (value n v rest) =
    let more = find_value name rest in if same_text n name then some v else more

-- `uN::read_from_prefix`, for a number of `k` bytes.
unfoldable pub read_from_prefix : ℕ → List ℕ → Option ℕ
read_from_prefix k bytes = if ltb (length bytes) k then none else some (le_value (take k bytes))

-- `&bytes[0..n]`, which panics where the bytes are too few.
unfoldable pub slice_to : ℕ → List ℕ → Result (List ℕ)
slice_to n bytes = do (front, rest) ← split_at n bytes; ok front

-- The loop over the 16-bit words of a wide string.
unfoldable pub read_words : ℕ → List ℕ → Result (List ℕ)
read_words zero bytes = ok []
read_words (suc n) bytes = do
  (word, rest) ← split_at 2 bytes
  words ← read_words n rest
  ok (le_value word ∷ words)

abbrev pub or_malformed : (ℕ → SymbolTree) → Option ℕ → SymbolTree
or_malformed wrap none = SymbolTree.malformed
or_malformed wrap (some n) = wrap n

abbrev pub number : ℕ → (ℕ → SymbolTree) → List ℕ → Result SymbolTree
number k wrap bytes = ok (or_malformed wrap (read_from_prefix k bytes))

abbrev pub nonzero : ℕ → SymbolTree
nonzero n = SymbolTree.bool (not (n == 0))

unfoldable pub wide_string : ℕ → List ℕ → Result SymbolTree
wide_string size bytes =
    if not (size % 2 == 0)
    then ok SymbolTree.malformed
    else (do words ← read_words (size / 2) bytes; ok (SymbolTree.string (from_utf16_lossy words)))

-- The bytes from the offset on; behind their end there is nothing.
abbrev pub accessible : List ℕ → ℕ → (List ℕ → Result SymbolTree) → Result SymbolTree
accessible bytes offset read =
    if ltb (length bytes) offset then ok SymbolTree.missing else read (drop offset bytes)

-- `lossy` is `from_utf8_lossy`; `to_f64` is `Extended::to_f64` on ten bytes.
module _ (lossy : List ℕ → Text) (to_f64 : List ℕ → ℕ) where
  unfoldable pub extended : List ℕ → Result SymbolTree
  extended bytes =
      if ltb (length bytes) 10
      then ok SymbolTree.malformed
      else ok (SymbolTree.real80 (to_f64 (take 10 bytes)))

  unfoldable mutual
    unfolding extended wide_string

    -- `SymbolTree::from_bytes`.
    pub from_bytes : List ℕ → SymbolTypeTree → ℕ → Result SymbolTree
    from_bytes bytes (SymbolTypeTree.struct children size) offset =
        let fields = from_fields bytes children offset no_value in
        accessible bytes offset (λ raw_data. do tree_map ← fields; ok (SymbolTree.struct tree_map))
    from_bytes bytes (SymbolTypeTree.array t size) offset = accessible bytes offset λ raw_data. do
      raw ← slice_to size raw_data
      ok (SymbolTree.array (element (SymbolTree.void raw) no_element))
    from_bytes bytes (SymbolTypeTree.void size) offset =
        accessible bytes offset
          λ raw_data. do raw ← slice_to size raw_data; ok (SymbolTree.void raw)
    from_bytes bytes SymbolTypeTree.int offset = accessible bytes offset (number 2 SymbolTree.int)
    from_bytes bytes SymbolTypeTree.dint offset = accessible bytes offset (number 4 SymbolTree.dint)
    from_bytes bytes SymbolTypeTree.real offset = accessible bytes offset (number 4 SymbolTree.real)
    from_bytes bytes SymbolTypeTree.lreal offset =
        accessible bytes offset (number 8 SymbolTree.lreal)
    from_bytes bytes SymbolTypeTree.sint offset = accessible bytes offset (number 1 SymbolTree.sint)
    from_bytes bytes SymbolTypeTree.usint offset =
        accessible bytes offset (number 1 SymbolTree.usint)
    from_bytes bytes SymbolTypeTree.uint offset = accessible bytes offset (number 2 SymbolTree.uint)
    from_bytes bytes SymbolTypeTree.udint offset =
        accessible bytes offset (number 4 SymbolTree.udint)
    from_bytes bytes SymbolTypeTree.lint offset = accessible bytes offset (number 8 SymbolTree.lint)
    from_bytes bytes SymbolTypeTree.ulint offset =
        accessible bytes offset (number 8 SymbolTree.ulint)
    from_bytes bytes (SymbolTypeTree.string size) offset =
        accessible bytes offset
          λ raw_data. do raw ← slice_to size raw_data; ok (SymbolTree.string (lossy raw))
    from_bytes bytes (SymbolTypeTree.wstring size) offset =
        accessible bytes offset (wide_string size)
    from_bytes bytes SymbolTypeTree.real80 offset = accessible bytes offset extended
    from_bytes bytes SymbolTypeTree.bool offset = accessible bytes offset (number 1 nonzero)
    from_bytes bytes (SymbolTypeTree.compound size) offset =
        accessible bytes offset (λ raw_data. ok SymbolTree.malformed)
    from_bytes bytes (SymbolTypeTree.unknown size) offset =
        accessible bytes offset (λ raw_data. ok SymbolTree.unknown)
    from_bytes bytes SymbolTypeTree.missing offset =
        accessible bytes offset (λ raw_data. ok SymbolTree.missing)

    -- The loop over the fields; `tree_map` holds those that were read.
    pub from_fields : List ℕ → Children → ℕ → Values → Result Values
    from_fields bytes end offset tree_map = ok tree_map
    from_fields bytes (child name t none rest) offset tree_map =
        from_fields bytes rest offset (insert_value name SymbolTree.missing tree_map)
    from_fields bytes (child name t (some o) rest) offset tree_map = do
      v ← from_bytes bytes t (offset + o)
      from_fields bytes rest offset (insert_value name v tree_map)

-- `SymbolTree::get_child`, on the pieces of the path.
unfoldable pub walk_values : List Text → SymbolTree → SymbolTree
walk_values [] current = current
walk_values (token ∷ tokens) (SymbolTree.struct children) = elim (find_value token children) [
  | some v ↦ walk_values tokens v
  | none ↦ SymbolTree.missing
]
walk_values (token ∷ tokens) current = SymbolTree.missing

unfoldable pub get_child : SymbolTree → Text → SymbolTree
get_child tree symbol_path = walk_values (split b'.' symbol_path) tree

-- `let SymbolTree::Uint(n) = *map.get(name)? else { return None }`.
abbrev pub as_uint : Option SymbolTree → Option ℕ
as_uint (some (SymbolTree.uint n)) = some n
as_uint o = none

abbrev pub with_uint {ℓ} : {A : Type ℓ} → Text → Values → (ℕ → Option A) → Option A
with_uint name map next = elim (as_uint (find_value name map)) [ some n ↦ next n | none ↦ none ]

-- `datetime` is what `chrono` makes of the year, the month, the day, and the time of the day.
module _ {Date : Type 0} (datetime : ℕ → ℕ → ℕ → ℕ → ℕ → ℕ → ℕ → Option Date) where
  unfoldable pub date_of : SymbolTree → Option Date
  date_of (SymbolTree.struct map) = with_uint (b'w' ∷ b'Y' ∷ b'e' ∷ b'a' ∷ b'r' ∷ []) map λ year.
      with_uint (b'w' ∷ b'M' ∷ b'o' ∷ b'n' ∷ b't' ∷ b'h' ∷ []) map λ month.
        with_uint (b'w' ∷ b'D' ∷ b'a' ∷ b'y' ∷ []) map λ day.
          with_uint (b'w' ∷ b'H' ∷ b'o' ∷ b'u' ∷ b'r' ∷ []) map λ hour.
            with_uint (b'w' ∷ b'M' ∷ b'i' ∷ b'n' ∷ b'u' ∷ b't' ∷ b'e' ∷ []) map λ minute.
              with_uint (b'w' ∷ b'S' ∷ b'e' ∷ b'c' ∷ b'o' ∷ b'n' ∷ b'd' ∷ []) map λ second.
                with_uint
                  (b'w' ∷ b'M' ∷ b'i' ∷ b'l' ∷ b'l' ∷ b'i' ∷ b's' ∷ b'e' ∷ b'c' ∷ b'o' ∷ b'n' ∷ b'd'
                    ∷ b's' ∷ [])
                  map (λ milliseconds. datetime year month day hour minute second milliseconds)
  date_of tree = none

  -- `SymbolTree::get_timestamp`.
  unfoldable pub get_timestamp : SymbolTree → Text → Option Date
  unfolding date_of get_child
  get_timestamp tree path = date_of (get_child tree path)
