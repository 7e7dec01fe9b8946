-- ===== src/Symbol/Tree/Flat.antt =====
-- src/symbol/map.rs: `SymbolTypeMap::from_tree`, which lists the values in a tree with their offsets.
use openstar_ads.Common.{
  ℕ, ◌+◌, ◌%◌, ◌^◌, List, [], ◌∷◌, ◌++◌, Bool, true, false, ◌&&◌, Option, none, some, if◌then◌else◌,
  replicate,
}
use openstar_ads.Error.{Result, ok, panic, ◌>>=◌}
use openstar_ads.Symbol.{Text, same_text}
use openstar_ads.Symbol.Tree.{
  SymbolTypeTree, Children, struct, array, void, string, wstring, compound, unknown, int, dint,
  real, lreal, sint, usint, uint, udint, lint, ulint, real80, bool, missing, end, child,
}

-- `PrimitiveSymbolType`.
pub data PrimitiveSymbolType : Type 0 where
  int_value dint_value real_value lreal_value sint_value usint_value : PrimitiveSymbolType
  uint_value udint_value lint_value ulint_value real80_value bool_value : PrimitiveSymbolType
  string_value wstring_value void_value : ℕ → PrimitiveSymbolType
  time_struct : List ℕ → PrimitiveSymbolType

-- `PrimitiveSymbolDescriptor`.
pub record PrimitiveSymbolDescriptor : Type 0 where
  pub symbol_type : PrimitiveSymbolType
  pub root_symbol_offset : ℕ

-- `SymbolTypeMap`, an `IndexMap`.
abbrev pub SymbolTypeMap : Type 0
SymbolTypeMap = List (Text × PrimitiveSymbolDescriptor)

abbrev pub timestruct_keys : List Text
timestruct_keys =
    (b'w' ∷ b'Y' ∷ b'e' ∷ b'a' ∷ b'r' ∷ [])
    ∷ (b'w' ∷ b'M' ∷ b'o' ∷ b'n' ∷ b't' ∷ b'h' ∷ [])
    ∷ (b'w' ∷ b'D' ∷ b'a' ∷ b'y' ∷ b'O' ∷ b'f' ∷ b'W' ∷ b'e' ∷ b'e' ∷ b'k' ∷ [])
    ∷ (b'w' ∷ b'D' ∷ b'a' ∷ b'y' ∷ [])
    ∷ (b'w' ∷ b'H' ∷ b'o' ∷ b'u' ∷ b'r' ∷ [])
    ∷ (b'w' ∷ b'M' ∷ b'i' ∷ b'n' ∷ b'u' ∷ b't' ∷ b'e' ∷ [])
    ∷ (b'w' ∷ b'S' ∷ b'e' ∷ b'c' ∷ b'o' ∷ b'n' ∷ b'd' ∷ [])
    ∷ (b'w' ∷ b'M' ∷ b'i' ∷ b'l' ∷ b'l' ∷ b'i' ∷ b's' ∷ b'e' ∷ b'c' ∷ b'o' ∷ b'n' ∷ b'd' ∷ b's'
        ∷ [])
    ∷ []

-- `index_map.keys() == TIMESTRUCT_KEYS`.
abbrev pub same_keys : Children → List Text → Bool
same_keys end [] = true
same_keys end (key ∷ keys) = false
same_keys (child n t o rest) [] = false
same_keys (child n t o rest) (key ∷ keys) = same_text n key && same_keys rest keys

-- `IndexMap::insert` and `append`.
unfoldable pub insert_entry : Text → PrimitiveSymbolDescriptor → SymbolTypeMap → SymbolTypeMap
insert_entry path d [] = (path, d) ∷ []
insert_entry path d ((p, e) ∷ m) =
    let rest = insert_entry path d m in if same_text p path then (p, d) ∷ m else (p, e) ∷ rest

unfoldable pub append : SymbolTypeMap → SymbolTypeMap → SymbolTypeMap
unfolding insert_entry
append m [] = m
append m ((p, d) ∷ other) = append (insert_entry p d m) other

-- `TIMESTRUCT_KEYS.iter().position(...)`, and the assignment at that place.
abbrev pub put_offset : Text → ℕ → List Text → List ℕ → Option (List ℕ)
put_offset name offset [] offsets = none
put_offset name offset (key ∷ keys) [] = none
put_offset name offset (key ∷ keys) (o ∷ offsets) =
    let further = put_offset name offset keys offsets in
    if same_text key name
    then some (offset ∷ offsets)
    else elim further [ some more ↦ some (o ∷ more) | none ↦ none ]

-- The loop over the children of a time structure; `none` stands for its early returns.
unfoldable pub time_offsets : Children → List ℕ → Option (List ℕ)
time_offsets end offsets = some offsets
time_offsets (child n uint (some offset) rest) offsets =
    elim (put_offset n offset timestruct_keys offsets) [
      | some more ↦ time_offsets rest more
      | none ↦ none
    ]
time_offsets (child n t o rest) offsets = none

abbrev pub time_entry : Text → ℕ → Option (List ℕ) → SymbolTypeMap
time_entry path offset none = []
time_entry path offset (some offsets) =
    (path, record { symbol_type = time_struct offsets; root_symbol_offset = offset }) ∷ []

abbrev pub join_path : Text → Text → Text
join_path [] name = name
join_path (c ∷ path) name = (c ∷ path) ++ (b'.' ∷ name)

abbrev pub single : Text → PrimitiveSymbolType → ℕ → Result SymbolTypeMap
single path t offset = ok ((path, record { symbol_type = t; root_symbol_offset = offset }) ∷ [])

-- A compound type that was not looked up is `unimplemented!`. Offsets are 32-bit numbers.
unfoldable mutual
  unfolding time_offsets append

  pub from_tree : SymbolTypeTree → ℕ → Text → Result SymbolTypeMap
  from_tree (struct children size) offset path =
      let flat = from_children children offset path [] in
      if same_keys children timestruct_keys
      then ok (time_entry path offset (time_offsets children (replicate 8 0)))
      else flat
  from_tree int offset path = single path int_value offset
  from_tree dint offset path = single path dint_value offset
  from_tree real offset path = single path real_value offset
  from_tree lreal offset path = single path lreal_value offset
  from_tree sint offset path = single path sint_value offset
  from_tree usint offset path = single path usint_value offset
  from_tree uint offset path = single path uint_value offset
  from_tree udint offset path = single path udint_value offset
  from_tree lint offset path = single path lint_value offset
  from_tree ulint offset path = single path ulint_value offset
  from_tree (string size) offset path = single path (string_value size) offset
  from_tree (wstring size) offset path = single path (wstring_value size) offset
  from_tree real80 offset path = single path real80_value offset
  from_tree bool offset path = single path bool_value offset
  from_tree (array t size) offset path = single path (void_value size) offset
  from_tree (void size) offset path = single path (void_value size) offset
  from_tree (unknown size) offset path = single path (void_value size) offset
  from_tree (compound size) offset path = panic
  from_tree missing offset path = ok []

  pub from_children : Children → ℕ → Text → SymbolTypeMap → Result SymbolTypeMap
  from_children end offset path m = ok m
  from_children (child n t none rest) offset path m = from_children rest offset path m
  from_children (child n t (some o) rest) offset path m = do
    inner ← from_tree t ((offset + o) % 2 ^ 32) (join_path path n)
    from_children rest offset path (append m inner)
