-- ===== src/Symbol/Values/Visit.antt =====
-- src/symbol/tree.rs: `SymbolTree` as a `Deserializer`: which call of the visitor it makes, and the
-- access that it gives to the entries of a structure and the elements of an array.
pub mod Rebuild
pub mod Rebuilt
mod Runs
use openstar_ads.Common.{ℕ, zero, suc, ◌+◌, String, List, Bool, Option, none, some}
use openstar_ads.Symbol.{Text}
use openstar_ads.Symbol.Values.{SymbolTree, Values, no_value, value, Elements, no_element, element}

-- `Result<A, Error>`, for the error of this file.
pub data Deserialised (A : Type 0) : Type 0 where
  done : A → Deserialised A
  deserialisation : String → Deserialised A

-- `MapAccessor` and `SeqAccessor`.
pub record MapAccessor : Type 0 where
  pub items : Values
  pub key_index : ℕ

pub record SeqAccessor : Type 0 where
  pub items : Elements
  pub index : ℕ

-- The calls of a visitor.
pub data Visit : Type 0 where
  visit_map : MapAccessor → Visit
  visit_seq : SeqAccessor → Visit
  visit_i16 visit_i32 visit_i64 visit_i8 visit_u8 visit_u16 visit_u32 visit_u64 : ℕ → Visit
  visit_f32 visit_f64 : ℕ → Visit
  visit_string : Text → Visit
  visit_bool : Bool → Visit
  visit_none : Visit
  visit_some visit_newtype_struct : SymbolTree → Visit
  visit_bytes : List ℕ → Visit
  visit_str : Text → Visit

unfoldable pub deserialize_any : SymbolTree → Deserialised Visit
deserialize_any (SymbolTree.struct index_map) =
    done (visit_map (record { items = index_map; key_index = 0 }))
deserialize_any (SymbolTree.array symbol_trees) =
    done (visit_seq (record { items = symbol_trees; index = 0 }))
deserialize_any (SymbolTree.int v) = done (visit_i16 v)
deserialize_any (SymbolTree.dint v) = done (visit_i32 v)
deserialize_any (SymbolTree.real v) = done (visit_f32 v)
deserialize_any (SymbolTree.lreal v) = done (visit_f64 v)
deserialize_any (SymbolTree.sint v) = done (visit_i8 v)
deserialize_any (SymbolTree.usint v) = done (visit_u8 v)
deserialize_any (SymbolTree.uint v) = done (visit_u16 v)
deserialize_any (SymbolTree.udint v) = done (visit_u32 v)
deserialize_any (SymbolTree.lint v) = done (visit_i64 v)
deserialize_any (SymbolTree.ulint v) = done (visit_u64 v)
deserialize_any (SymbolTree.string v) = done (visit_string v)
deserialize_any (SymbolTree.real80 v) = done (visit_f64 v)
deserialize_any (SymbolTree.bool v) = done (visit_bool v)
deserialize_any SymbolTree.missing = done visit_none
deserialize_any SymbolTree.unknown = deserialisation "unable to deserialize SymbolTree::Unknown"
deserialize_any (SymbolTree.void bytes) = done (visit_bytes bytes)
deserialize_any SymbolTree.malformed = deserialisation "unable to deserialize SymbolTree::Malformed"

unfoldable pub deserialize_option : SymbolTree → Deserialised Visit
deserialize_option SymbolTree.missing = done visit_none
deserialize_option t = done (visit_some t)

unfoldable pub deserialize_newtype_struct : SymbolTree → Deserialised Visit
deserialize_newtype_struct t = done (visit_newtype_struct t)

-- `KeyDeserializer::deserialize_any`.
unfoldable pub deserialize_key : Text → Deserialised Visit
deserialize_key key = done (visit_str key)

-- `IndexMap::get_index`, and `get` of a slice.
abbrev pub get_index : Values → ℕ → Option (Text × SymbolTree)
get_index no_value i = none
get_index (value n v rest) zero = some (n, v)
get_index (value n v rest) (suc i) = get_index rest i

abbrev pub get_element : Elements → ℕ → Option SymbolTree
get_element no_element i = none
get_element (element v rest) zero = some v
get_element (element v rest) (suc i) = get_element rest i

-- `next_key_seed`, `next_value_seed` and `next_element_seed`, with the deserialisation of what they
-- hand out left to the seed.
abbrev pub key_of : Option (Text × SymbolTree) → Option Text
key_of none = none
key_of (some (key, v)) = some key

unfoldable pub next_key : MapAccessor → Option Text
next_key a = key_of (get_index a.items a.key_index)

abbrev pub value_at :
    MapAccessor → Option (Text × SymbolTree) → Deserialised SymbolTree × MapAccessor
value_at a (some (key, v)) = (done v, record a { key_index = a.key_index + 1 })
value_at a none = (deserialisation "failed to get next value from map", a)

unfoldable pub next_value : MapAccessor → Deserialised SymbolTree × MapAccessor
next_value a = value_at a (get_index a.items a.key_index)

abbrev pub element_at : SeqAccessor → Option SymbolTree → Option SymbolTree × SeqAccessor
element_at a (some v) = (some v, record a { index = a.index + 1 })
element_at a none = (none, a)

unfoldable pub next_element : SeqAccessor → Option SymbolTree × SeqAccessor
next_element a = element_at a (get_element a.items a.index)
