-- ===== src/Symbol/Values/Listed.antt =====
-- What an entry of a `SymbolTypeMap` stands for: a part of a tree, under its path and at its place.
use openstar_ads.Common.{
  ℕ, ◌+◌, ◌≤◌, ◌≡◌, refl, sym, subst, List, [], ◌∷◌, true, false, Option, none, some, arith,
  replicate,
}
use openstar_ads.Symbol.{Text}
use openstar_ads.Symbol.Tree.{SymbolTypeTree, Children, get_size}
use openstar_ads.Symbol.Tree.Flat.{
  PrimitiveSymbolType, PrimitiveSymbolDescriptor, same_keys, timestruct_keys, time_offsets,
  join_path, int_value, dint_value, real_value, lreal_value, sint_value, usint_value, uint_value,
  udint_value, lint_value, ulint_value, real80_value, bool_value, string_value, wstring_value,
  void_value, time_struct,
}
use openstar_ads.Symbol.Values.Types.{Sized}
use openstar_ads.Symbol.Values.Places.{find_field, locate}

-- The path of the names that are met on the way.
abbrev pub join_all : Text → List Text → Text
join_all path [] = path
join_all path (token ∷ tokens) = join_all (join_path path token) tokens

-- What each part of a type tree is listed as; a structure is, where it is a time structure.
abbrev pub ListedAs : SymbolTypeTree → PrimitiveSymbolType → Type 0
ListedAs (SymbolTypeTree.struct children size) s =
    (same_keys children timestruct_keys ≡ true)
    × (offsets : List ℕ) × (time_offsets children (replicate 8 0) ≡ some offsets)
    × (s ≡ time_struct offsets)
ListedAs SymbolTypeTree.int s = s ≡ int_value
ListedAs SymbolTypeTree.dint s = s ≡ dint_value
ListedAs SymbolTypeTree.real s = s ≡ real_value
ListedAs SymbolTypeTree.lreal s = s ≡ lreal_value
ListedAs SymbolTypeTree.sint s = s ≡ sint_value
ListedAs SymbolTypeTree.usint s = s ≡ usint_value
ListedAs SymbolTypeTree.uint s = s ≡ uint_value
ListedAs SymbolTypeTree.udint s = s ≡ udint_value
ListedAs SymbolTypeTree.lint s = s ≡ lint_value
ListedAs SymbolTypeTree.ulint s = s ≡ ulint_value
ListedAs (SymbolTypeTree.string size) s = s ≡ string_value size
ListedAs (SymbolTypeTree.wstring size) s = s ≡ wstring_value size
ListedAs SymbolTypeTree.real80 s = s ≡ real80_value
ListedAs SymbolTypeTree.bool s = s ≡ bool_value
ListedAs (SymbolTypeTree.array t size) s = s ≡ void_value size
ListedAs (SymbolTypeTree.void size) s = s ≡ void_value size
ListedAs (SymbolTypeTree.unknown size) s = s ≡ void_value size
ListedAs (SymbolTypeTree.compound size) s = false ≡ true
ListedAs SymbolTypeTree.missing s = false ≡ true

-- An entry for a part of the tree `t`, which stands at `offset` under `path`.
pub record Listed (t : SymbolTypeTree) (offset : ℕ) (path : Text)
    (entry : Text × PrimitiveSymbolDescriptor) : Type 0 where
  pub tokens : List Text
  pub part : SymbolTypeTree
  pub place : ℕ
  pub located : locate tokens t offset ≡ some (part, place)
  pub spelled : entry.0 ≡ join_all path tokens
  pub within : place + get_size part ≤ offset + get_size t
  pub part_sized : Sized part
  pub at_place : entry.1.root_symbol_offset ≡ place
  pub listed_as : ListedAs part entry.1.symbol_type

-- The tree itself.
pub whole :
    (t : SymbolTypeTree) (offset : ℕ) (path : Text) (s : PrimitiveSymbolType)
    → Sized t
    → ListedAs t s
    → Listed t offset path (path, record { symbol_type = s; root_symbol_offset = offset })
unfolding locate
whole t offset path s sized h = record {
  tokens = [];
  part = t;
  place = offset;
  located = refl;
  spelled = refl;
  within = omega arith;
  part_sized = sized;
  at_place = refl;
  listed_as = h;
}

-- What `locate` goes on with.
abbrev step_to : List Text → ℕ → Option (SymbolTypeTree × Option ℕ) → Option (SymbolTypeTree × ℕ)
step_to tokens offset f = elim f [
  | some (t, some o) ↦ locate tokens t (offset + o)
  | some (t, none) ↦ none
  | none ↦ none
]

-- A part of a field is a part of the structure.
pub in_field :
    (children : Children) (size offset : ℕ) (path n : Text) (t : SymbolTypeTree) (o : ℕ)
    (entry : Text × PrimitiveSymbolDescriptor)
    → find_field n children ≡ some (t, some o)
    → o + get_size t ≤ size
    → Listed t (offset + o) (join_path path n) entry
    → Listed (SymbolTypeTree.struct children size) offset path entry
unfolding locate get_size
in_field children size offset path n t o entry found inside l = record {
  tokens = n ∷ l.tokens;
  part = l.part;
  place = l.place;
  located = subst (λ f. step_to l.tokens offset f ≡ some (l.part, l.place)) (sym found) l.located;
  spelled = l.spelled;
  within = omega (arith, l.within);
  part_sized = l.part_sized;
  at_place = l.at_place;
  listed_as = l.listed_as;
}
