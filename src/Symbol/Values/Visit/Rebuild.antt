-- ===== src/Symbol/Values/Visit/Rebuild.antt =====
-- A visitor that builds a tree of what the `Deserializer` of src/symbol/tree.rs hands to it.
use openstar_ads.Common.{ℕ, zero, suc, ◌+◌, Option, none, some}
use openstar_ads.Symbol.{Text}
use openstar_ads.Symbol.Values.{SymbolTree, Values, no_value, value, Elements, no_element, element}
use openstar_ads.Symbol.Values.Visit.{
  Deserialised, done, deserialisation, MapAccessor, SeqAccessor, Visit, deserialize_any,
  deserialize_key, next_key, next_value, next_element,
}

-- `?`, on a result and on the answer of a loop that has fuel.
abbrev pub and_then : {A B : Type 0} → Deserialised A → (A → Deserialised B) → Deserialised B
and_then (done a) f = f a
and_then (deserialisation e) f = deserialisation e

abbrev pub answer_then :
    {A B : Type 0}
    → Option (Deserialised A)
    → (A → Option (Deserialised B))
    → Option (Deserialised B)
answer_then none f = none
answer_then (some (done a)) f = f a
answer_then (some (deserialisation e)) f = some (deserialisation e)

-- A visitor of strings.
abbrev pub string_of : Deserialised Visit → Deserialised Text
string_of (done (Visit.visit_str s)) = done s
string_of v = deserialisation "invalid type"

module _ (visit : SymbolTree → Option (Deserialised SymbolTree)) where
  -- What follows a key, or the end of the entries.
  abbrev pub entries_after :
      (MapAccessor → Option (Deserialised Values))
      → Option Text
      → Deserialised SymbolTree × MapAccessor
      → Option (Deserialised Values)
  entries_after next none r = some (done no_value)
  entries_after next (some key) (r, a) =
      answer_then (some (string_of (deserialize_key key))) λ name. answer_then (some r) λ given.
        answer_then (visit given) λ v. answer_then (next a) λ rest. some (done (value name v rest))

  abbrev pub elements_after :
      (SeqAccessor → Option (Deserialised Elements))
      → Option SymbolTree × SeqAccessor
      → Option (Deserialised Elements)
  elements_after next (none, a) = some (done no_element)
  elements_after next (some given, a) =
      answer_then (visit given) λ v. answer_then (next a) λ rest. some (done (element v rest))

  -- The loops of a visitor over `next_key` and `next_value`, and over `next_element`.
  unfoldable pub visit_entries : ℕ → MapAccessor → Option (Deserialised Values)
  unfolding deserialize_key
  visit_entries zero a = none
  visit_entries (suc fuel) a = entries_after (visit_entries fuel) (next_key a) (next_value a)

  unfoldable pub visit_elements : ℕ → SeqAccessor → Option (Deserialised Elements)
  visit_elements zero a = none
  visit_elements (suc fuel) a = elements_after (visit_elements fuel) (next_element a)

  -- The methods of the visitor.
  unfoldable pub on_visit : ℕ → Visit → Option (Deserialised SymbolTree)
  unfolding visit_entries visit_elements
  on_visit fuel (Visit.visit_map a) =
      answer_then (visit_entries fuel a) λ vs. some (done (SymbolTree.struct vs))
  on_visit fuel (Visit.visit_seq a) =
      answer_then (visit_elements fuel a) λ es. some (done (SymbolTree.array es))
  on_visit fuel (Visit.visit_i16 v) = some (done (SymbolTree.int v))
  on_visit fuel (Visit.visit_i32 v) = some (done (SymbolTree.dint v))
  on_visit fuel (Visit.visit_i64 v) = some (done (SymbolTree.lint v))
  on_visit fuel (Visit.visit_i8 v) = some (done (SymbolTree.sint v))
  on_visit fuel (Visit.visit_u8 v) = some (done (SymbolTree.usint v))
  on_visit fuel (Visit.visit_u16 v) = some (done (SymbolTree.uint v))
  on_visit fuel (Visit.visit_u32 v) = some (done (SymbolTree.udint v))
  on_visit fuel (Visit.visit_u64 v) = some (done (SymbolTree.ulint v))
  on_visit fuel (Visit.visit_f32 v) = some (done (SymbolTree.real v))
  on_visit fuel (Visit.visit_f64 v) = some (done (SymbolTree.lreal v))
  on_visit fuel (Visit.visit_string s) = some (done (SymbolTree.string s))
  on_visit fuel (Visit.visit_bool b) = some (done (SymbolTree.bool b))
  on_visit fuel Visit.visit_none = some (done SymbolTree.missing)
  on_visit fuel (Visit.visit_some t) = visit t
  on_visit fuel (Visit.visit_newtype_struct t) = visit t
  on_visit fuel (Visit.visit_bytes bytes) = some (done (SymbolTree.void bytes))
  on_visit fuel (Visit.visit_str s) = some (done (SymbolTree.string s))

unfoldable pub rebuild : ℕ → SymbolTree → Option (Deserialised SymbolTree)
unfolding deserialize_any on_visit
rebuild zero t = none
rebuild (suc fuel) t = answer_then (some (deserialize_any t)) λ v. on_visit (rebuild fuel) fuel v

-- What the visitor should build: the tree itself, with an 80-bit number as the 64-bit one of the
-- same bits, unless a part of it has no value, where the first such part says why.
unfoldable mutual
  pub rebuilt : SymbolTree → Deserialised SymbolTree
  rebuilt (SymbolTree.struct vs) =
      and_then (rebuilt_values vs) λ more. done (SymbolTree.struct more)
  rebuilt (SymbolTree.array es) =
      and_then (rebuilt_elements es) λ more. done (SymbolTree.array more)
  rebuilt (SymbolTree.real80 v) = done (SymbolTree.lreal v)
  rebuilt SymbolTree.unknown = deserialisation "unable to deserialize SymbolTree::Unknown"
  rebuilt SymbolTree.malformed = deserialisation "unable to deserialize SymbolTree::Malformed"
  rebuilt t = done t

  pub rebuilt_values : Values → Deserialised Values
  rebuilt_values no_value = done no_value
  rebuilt_values (value n given rest) =
      and_then (rebuilt given) λ v. and_then (rebuilt_values rest) λ more. done (value n v more)

  pub rebuilt_elements : Elements → Deserialised Elements
  rebuilt_elements no_element = done no_element
  rebuilt_elements (element given rest) =
      and_then (rebuilt given) λ v. and_then (rebuilt_elements rest) λ more. done (element v more)

-- The nodes of a tree, which are fuel enough.
unfoldable mutual
  pub nodes : SymbolTree → ℕ
  nodes (SymbolTree.struct vs) = suc (value_nodes vs)
  nodes (SymbolTree.array es) = suc (element_nodes es)
  nodes t = 1

  pub value_nodes : Values → ℕ
  value_nodes no_value = 1
  value_nodes (value n v rest) = 1 + (nodes v + value_nodes rest)

  pub element_nodes : Elements → ℕ
  element_nodes no_element = 1
  element_nodes (element v rest) = 1 + (nodes v + element_nodes rest)
