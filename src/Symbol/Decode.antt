-- ===== src/Symbol/Decode.antt =====
-- src/symbol/type.rs: the decoders of the uploads of types and symbols.
use openstar_ads.Common.{
  ℕ, zero, suc, ◌+◌, ◌-◌, ◌%◌, ◌^◌, String, List, [], ◌∷◌, true, false, Option, none, some, ◌==◌,
  ltb, if◌then◌else◌, length,
}
use openstar_ads.Error.{Error, Result, ok, err, panic, ◌>>=◌, ◌>>◌, guard, assert}
use openstar_ads.Wire.{read_uint, split_at}
use openstar_ads.Symbol.{Text, Attribute, Field, PlcType, Symbol, insert_type}
use openstar_ads.Symbol.Fields.{times, read_text}
use openstar_ads.Symbol.Methods.{parse_field_attributes, parse_type_flags}

-- What the entries of types and of fields begin with.
pub record Head : Type 0 where
  pub size : ℕ
  pub offset : ℕ
  pub base_type : ℕ
  pub flags : ℕ
  pub name : Text
  pub type_name : Text
  pub comment : Text
  pub array : List (ℕ × ℕ)
  pub sub_items : ℕ

-- `(lower, lower + total - 1)`, in 32 bits.
unfoldable pub dimension : String → List ℕ → Result ((ℕ × ℕ) × List ℕ)
dimension ctx ptr = do
  (lower, ptr) ← read_uint ctx 4 ptr
  (total, ptr) ← read_uint ctx 4 ptr
  ok ((lower, (lower + total + (2 ^ 32 - 1)) % 2 ^ 32), ptr)

-- An entry with its length before it, where no test comes before the subtraction.
unfoldable pub raw_entry {ℓ} :
    {A : Type ℓ} → String → (List ℕ → Result A) → List ℕ → Result (A × List ℕ)
raw_entry ctx part ptr = do
  (entry_size, ptr) ← read_uint ctx 4 ptr
  assert (if ltb entry_size 4 then false else true)
  (entry_ptr, rest) ← split_at (entry_size - 4) ptr
  a ← part entry_ptr
  ok (a, rest)

-- An item before those of the rest, if there is no error in the rest.
abbrev pub item_before {ℓ} : {A : Type ℓ} → A → Option (Result (List A)) → Option (Result (List A))
item_before a none = none
item_before a (some (ok rest)) = some (ok (a ∷ rest))
item_before a (some (err e)) = some (err e)
item_before a (some panic) = some panic

-- The outcome of an item: the loop goes on behind it, or ends with its error.
abbrev pub items_after {ℓ} :
    {A : Type ℓ}
    → (List ℕ → Option (Result (List A)))
    → Result (A × List ℕ)
    → Option (Result (List A))
items_after next (ok (a, rest)) = item_before a (next rest)
items_after next (err e) = some (err e)
items_after next panic = some panic

-- `while !data_ptr.is_empty()`: the items up to the end of the slice, unless the fuel runs out.
unfoldable pub until_empty {ℓ} :
    {A : Type ℓ} → (List ℕ → Result (A × List ℕ)) → ℕ → List ℕ → Option (Result (List A))
until_empty item fuel [] = some (ok [])
until_empty item zero (b ∷ ptr) = none
until_empty item (suc fuel) (b ∷ ptr) = items_after (until_empty item fuel) (item (b ∷ ptr))

abbrev pub field_offset : ℕ → Option ℕ
field_offset offset = if offset == 0xFFFFFFFF then none else some offset

abbrev pub field_of : Head → Option (List Attribute) → Field
field_of h attributes = record {
  name = h.name;
  typ = h.type_name;
  offset = field_offset h.offset;
  size = h.size;
  array = h.array;
  base_type = h.base_type;
  flags = h.flags;
  comment = h.comment;
  attributes = attributes;
}

abbrev pub type_of : Head → List Field → PlcType
type_of h fields = record {
  name = h.name;
  type_name = h.type_name;
  comment = h.comment;
  size = h.size;
  array = h.array;
  fields = fields;
  base_type = h.base_type;
  flags = h.flags;
  guid = none;
  methods = none;
  attributes = none;
  enum_info = none;
}

-- The map that the types make, a later one in place of an earlier one of the same name.
unfoldable pub type_map : List (Text × PlcType) → List PlcType → List (Text × PlcType)
type_map m [] = m
type_map m (t ∷ ts) = type_map (insert_type t.name t m) ts

module _ (lossy : List ℕ → Text) where
  -- `_subitem_index` and what follows it, up to the array bounds.
  unfoldable pub head : String → List ℕ → Result (Head × List ℕ)
  unfolding times dimension
  head ctx ptr = do
    (size, ptr) ← read_uint ctx 4 ptr
    (offset, ptr) ← read_uint ctx 4 ptr
    (base_type, ptr) ← read_uint ctx 4 ptr
    (flags, ptr) ← read_uint ctx 4 ptr
    (len_name, ptr) ← read_uint ctx 2 ptr
    (len_type, ptr) ← read_uint ctx 2 ptr
    (len_comment, ptr) ← read_uint ctx 2 ptr
    (array_dim, ptr) ← read_uint ctx 2 ptr
    (sub_items, ptr) ← read_uint ctx 2 ptr
    (name, ptr) ← read_text lossy 1024 ctx len_name ptr
    (type_name, ptr) ← read_text lossy 1024 ctx len_type ptr
    (comment, ptr) ← read_text lossy 1024 ctx len_comment ptr
    (array, ptr) ← times (dimension ctx) array_dim ptr
    ok (
      record {
        size = size;
        offset = offset;
        base_type = base_type;
        flags = flags;
        name = name;
        type_name = type_name;
        comment = comment;
        array = array;
        sub_items = sub_items;
      },
      ptr,
    )

  -- The start of a bulk entry: the version, which is checked, and eight bytes.
  unfoldable pub bulk_head : List ℕ → Result (Head × List ℕ)
  unfolding head
  bulk_head ptr = do
    let ctx : String = "decoding type info"
    (version, ptr) ← read_uint ctx 4 ptr
    guard (version == 1) (Error.reply ctx "unknown type info version" version)
    (subitem_index, ptr) ← read_uint ctx 2 ptr
    (plc_interface_id, ptr) ← read_uint ctx 2 ptr
    (reserved, ptr) ← read_uint ctx 4 ptr
    head ctx ptr

  -- The nested `decode_type_info` of `decode_symbol_info`, with a parent.
  unfoldable pub decode_field_info : List ℕ → Result Field
  unfolding bulk_head
  decode_field_info ptr = do
    (h, ptr) ← bulk_head ptr
    assert (h.sub_items == 0)
    (attributes, ptr) ← parse_field_attributes lossy h.flags h.size ptr
    ok (field_of h attributes)

  -- The same without a parent.
  unfoldable pub decode_type_info : List ℕ → Result PlcType
  unfolding bulk_head times raw_entry
  decode_type_info ptr = do
    (h, ptr) ← bulk_head ptr
    assert (h.offset == 0)
    (fields, ptr) ← times (raw_entry "decoding type info" decode_field_info) h.sub_items ptr
    (t, ptr) ← parse_type_flags lossy (type_of h fields) ptr
    ok t

  unfoldable pub decode_symbol : List ℕ → Result Symbol
  unfolding read_text
  decode_symbol ptr = do
    let ctx : String = "decoding symbol info"
    (ix_group, ptr) ← read_uint ctx 4 ptr
    (ix_offset, ptr) ← read_uint ctx 4 ptr
    (size, ptr) ← read_uint ctx 4 ptr
    (base_type, ptr) ← read_uint ctx 4 ptr
    (flags, ptr) ← read_uint ctx 2 ptr
    (legacy_array_dim, ptr) ← read_uint ctx 2 ptr
    (len_name, ptr) ← read_uint ctx 2 ptr
    (len_type, ptr) ← read_uint ctx 2 ptr
    (len_comment, ptr) ← read_uint ctx 2 ptr
    (name, ptr) ← read_text lossy 1024 ctx len_name ptr
    (typ, ptr) ← read_text lossy 1024 ctx len_type ptr
    ok (record {
      name = name;
      ix_group = ix_group;
      ix_offset = ix_offset;
      typ = typ;
      size = size;
      base_type = base_type;
      flags = flags;
    })

  unfoldable pub decode_types : List ℕ → Option (Result (List PlcType))
  unfolding until_empty raw_entry decode_type_info
  decode_types type_data =
      until_empty (raw_entry "decoding type info" decode_type_info) (length type_data) type_data

  unfoldable pub decode_symbols : List ℕ → Option (Result (List Symbol))
  unfolding until_empty raw_entry decode_symbol
  decode_symbols symbol_data =
      until_empty (raw_entry "decoding symbol info" decode_symbol) (length symbol_data) symbol_data

  -- The types are decoded first: where that fails, the symbols are not looked at.
  unfoldable pub with_types :
      List ℕ
      → Option (Result (List PlcType))
      → Option (Result (List Symbol × List (Text × PlcType)))
  unfolding decode_symbols type_map
  with_types symbol_data none = none
  with_types symbol_data (some (err e)) = some (err e)
  with_types symbol_data (some panic) = some panic
  with_types symbol_data (some (ok types)) = go (decode_symbols symbol_data)
    where
      go : Option (Result (List Symbol)) → Option (Result (List Symbol × List (Text × PlcType)))
      go none = none
      go (some (ok symbols)) = some (ok (symbols, type_map [] types))
      go (some (err e)) = some (err e)
      go (some panic) = some panic

  unfoldable pub decode_symbol_info :
      List ℕ → List ℕ → Option (Result (List Symbol × List (Text × PlcType)))
  unfolding with_types decode_types
  decode_symbol_info symbol_data type_data = with_types symbol_data (decode_types type_data)
