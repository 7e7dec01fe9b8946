-- ===== src/Symbol/Tree/Samples.antt =====
-- Type maps and trees for the examples.
use openstar_ads.Common.{ℕ, ◌≡◌, refl, List, [], ◌∷◌, none, some}
use openstar_ads.Symbol.{Text, Field, PlcType, get_type}
use openstar_ads.Symbol.Tree.{
  SymbolTypeTree, struct, int, end, child, built, TypeMap, try_from_type_or_field, from_type_id,
  fill, look_up, with_fields, add_children, add_child, insert_child,
}

abbrev pub int_field : Field
int_field = record {
  name = b'x' ∷ [];
  typ = b'I' ∷ [];
  offset = some 0;
  size = 2;
  array = [];
  base_type = 2;
  flags = 0;
  comment = [];
  attributes = none;
}

-- A field of the structure `T`.
abbrev pub t_field : Field
t_field = record int_field { name = b't' ∷ []; typ = b'T' ∷ []; offset = some 2; base_type = 65 }

abbrev pub structure : Text → ℕ → List Field → PlcType
structure name size fields = record {
  name = name;
  type_name = [];
  comment = [];
  size = size;
  array = [];
  fields = fields;
  base_type = 65;
  flags = 0;
  guid = none;
  methods = none;
  attributes = none;
  enum_info = none;
}

abbrev pub t_type : PlcType
t_type = structure (b'T' ∷ []) 2 (int_field ∷ [])

-- `S` holds a number and a `T`.
abbrev pub s_type : PlcType
s_type = structure (b'S' ∷ []) 4 (int_field ∷ t_field ∷ [])

abbrev pub two_types : TypeMap
two_types = (b'S' ∷ [], s_type) ∷ (b'T' ∷ [], t_type) ∷ []

abbrev pub s_tree : SymbolTypeTree
s_tree =
    struct
      (child (b'x' ∷ []) int (some 0)
        (child (b't' ∷ []) (struct (child (b'x' ∷ []) int (some 0) end) 2) (some 2) end))
      4

pub s_tree_built : try_from_type_or_field two_types 3 65 4 (b'S' ∷ []) ≡ built s_tree
unfolding try_from_type_or_field fill look_up with_fields add_children add_child insert_child
    get_type from_type_id
s_tree_built = refl
