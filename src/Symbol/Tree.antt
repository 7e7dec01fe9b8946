-- ===== src/Symbol/Tree.antt =====
-- src/symbol/type_tree.rs: the tree of a symbol's type, and how it is built from the type map.
pub mod Flat
pub mod Kept
pub mod Built
pub mod Depth
pub mod Samples
mod Runs
use openstar_ads.Common.{
  ℕ, zero, suc, List, [], ◌∷◌, Bool, true, false, Option, none, some, ◌==◌, if◌then◌else◌,
}
use openstar_ads.NetId.Split.{split}
use openstar_ads.Symbol.{Text, Field, PlcType, same_text, get_type}

-- `SymbolTypeTree`. The children of a structure are an `IndexMap`, in the order of their insertion.
mutual
  pub data SymbolTypeTree : Type 0 where
    struct : Children → ℕ → SymbolTypeTree
    array : SymbolTypeTree → ℕ → SymbolTypeTree
    void string wstring compound unknown : ℕ → SymbolTypeTree
    int dint real lreal sint usint uint udint lint ulint real80 bool : SymbolTypeTree
    missing : SymbolTypeTree

  pub data Children : Type 0 where
    end : Children
    child : Text → SymbolTypeTree → Option ℕ → Children → Children

-- What the construction ends with: a tree, `MissingSymbolTypeInfo`, or its fuel used up.
pub data Outcome : Type 0 where
  built : SymbolTypeTree → Outcome
  missing_symbol_type_info : Text → Outcome
  exhausted : Outcome

-- The same for the children of a structure.
pub data Gathered : Type 0 where
  gathered : Children → Gathered
  ran_out : Gathered

-- `SymbolTypeTree::get_size`.
unfoldable pub get_size : SymbolTypeTree → ℕ
get_size (struct children size) = size
get_size (array tree size) = size
get_size (void size) = size
get_size int = 2
get_size dint = 4
get_size real = 4
get_size lreal = 8
get_size sint = 1
get_size usint = 1
get_size uint = 2
get_size udint = 4
get_size lint = 8
get_size ulint = 8
get_size (string size) = size
get_size (wstring size) = size
get_size real80 = 10
get_size bool = 1
get_size (compound size) = size
get_size (unknown size) = size
get_size missing = 0

-- `SymbolTypeTree::from_type_id`.
unfoldable pub from_type_id : ℕ → ℕ → SymbolTypeTree
from_type_id id size =
    if id == 0
    then void size
    else if id == 2
    then int
    else if id == 3
    then dint
    else if id == 4
    then real
    else if id == 5
    then lreal
    else if id == 16
    then sint
    else if id == 17
    then usint
    else if id == 18
    then uint
    else if id == 19
    then udint
    else if id == 20
    then lint
    else if id == 21
    then ulint
    else if id == 30
    then string size
    else if id == 31
    then wstring size
    else if id == 32
    then real80
    else if id == 33
    then bool
    else if id == 65
    then compound size
    else unknown size

-- `IndexMap::insert`: a name that is there keeps its place.
unfoldable pub insert_child : Text → SymbolTypeTree → Option ℕ → Children → Children
insert_child name tree offset end = child name tree offset end
insert_child name tree offset (child n t o rest) =
    let more = insert_child name tree offset rest in
    if same_text n name then child n tree offset rest else child n t o more

-- `unwrap_or(SymbolTypeTree::Unknown(field.size))`.
abbrev pub or_unknown : ℕ → Outcome → Outcome
or_unknown size (built t) = built t
or_unknown size (missing_symbol_type_info name) = built (unknown size)
or_unknown size exhausted = exhausted

abbrev pub TypeMap : Type 0
TypeMap = List (Text × PlcType)

-- A field's tree goes in under its name, and the loop goes on.
unfoldable pub add_child : Field → Children → (Children → Gathered) → Outcome → Gathered
unfolding insert_child
add_child f children next (built t) = next (insert_child f.name t f.offset children)
add_child f children next (missing_symbol_type_info name) = ran_out
add_child f children next exhausted = ran_out

abbrev pub complete : ℕ → Gathered → Outcome
complete size (gathered children) = built (struct children size)
complete size ran_out = exhausted

-- `recur` builds the tree of a base type, a size and a type name.
module _ (recur : ℕ → ℕ → Text → Outcome) where
  -- The loop over the fields.
  unfoldable pub add_children : List Field → Children → Gathered
  unfolding add_child
  add_children [] children = gathered children
  add_children (f ∷ fs) children =
      add_child f children (add_children fs) (or_unknown f.size (recur f.base_type f.size f.typ))

  -- A compound type without fields is taken for an array of bytes.
  unfoldable pub with_fields : PlcType → ℕ → List Field → Outcome
  unfolding add_children
  with_fields t size [] = built (array usint size)
  with_fields t size (f ∷ fs) = complete t.size (add_children (f ∷ fs) end)

  unfoldable pub look_up : Text → ℕ → Option PlcType → Outcome
  unfolding with_fields
  look_up name size none = missing_symbol_type_info name
  look_up name size (some t) = with_fields t size t.fields

  -- A compound type is looked up; any other tree stays as it is.
  unfoldable pub fill : TypeMap → Text → ℕ → SymbolTypeTree → Outcome
  unfolding look_up
  fill types name size (compound n) = look_up name size (get_type name types)
  fill types name size t = built t

-- `SymbolTypeTree::try_from_type_or_field`. It calls itself as deep as types are nested.
unfoldable pub try_from_type_or_field : TypeMap → ℕ → ℕ → ℕ → Text → Outcome
unfolding fill from_type_id
try_from_type_or_field types zero base_type size name = exhausted
try_from_type_or_field types (suc fuel) base_type size name =
    fill (try_from_type_or_field types fuel) types name size (from_type_id base_type size)

-- `SymbolTypeTree::get_child`, on the pieces of the path.
abbrev pub find_child : Text → Children → Option SymbolTypeTree
find_child name end = none
find_child name (child n t o rest) =
    let more = find_child name rest in if same_text n name then some t else more

unfoldable pub walk : List Text → SymbolTypeTree → SymbolTypeTree
walk [] current = current
walk (token ∷ tokens) (struct children size) = elim (find_child token children) [
  | some t ↦ walk tokens t
  | none ↦ missing
]
walk (token ∷ tokens) current = missing

unfoldable pub get_child : SymbolTypeTree → Text → SymbolTypeTree
unfolding walk
get_child tree symbol_path = walk (split b'.' symbol_path) tree
