-- ===== src/Symbol/Samples.antt =====
-- The entries of an upload: a symbol, a structure with a field and a method, and an enum.
pub mod Fits
use openstar_ads.Common.{ℕ, ◌-◌, ◌^◌, ◌≡◌, refl, List, [], ◌∷◌, arith, some, none}
use openstar_ads.Wire.{le_bytes}
use openstar_ads.Symbol.{Text, Symbol, PlcType, Attribute}
use openstar_ads.Symbol.Format
use openstar_ads.Symbol.Format.{
  encode_body, encode_entries, encode_sized, decode_symbols-encode_entries,
}
use openstar_ads.Symbol.Layout.{
  Entry, IsEntry, encode_entry, encode_head, encode_type, type_of_entry, encode_dimension,
  encode_parts,
}
use openstar_ads.Symbol.Parts.{encode_all, encode_attributes, encode_attribute, IsAttributes}
use openstar_ads.Symbol.MethodLayout.{
  ParameterEntry, MethodEntry, encode_parameter, encode_method, encode_methods, IsParameter,
  IsMethod,
}
use openstar_ads.Symbol.Variants.{encode_variants, encode_variant, int16}
use openstar_ads.Symbol.Upload.{IsTypeEntry}

-- Texts without a byte that UTF-8 does not allow.
abbrev pub ascii : List ℕ → Text
ascii bytes = bytes

-- The symbol `A` of the type `INT`, with a comment behind it.
abbrev pub a_symbol : openstar_ads.Symbol.Format.Entry
a_symbol = record {
  symbol = record {
    name = 65 ∷ [];
    ix_group = 0x4040;
    ix_offset = 8;
    typ = 73 ∷ 78 ∷ 84 ∷ [];
    size = 2;
    base_type = 2;
    flags = 8;
  };
  array_dim = 0;
  comment_len = 1;
  tail = 33 ∷ 0 ∷ [];
}

-- A field `x` of two bytes at offset 4, an array from 1 to 3, with an attribute.
abbrev pub x_field : Entry
x_field = record {
  subitem_index = 0;
  plc_interface_id = 0;
  reserved = 0;
  size = 2;
  offset = some 4;
  base_type = 2;
  flags = 0x1000;
  name = 120 ∷ [];
  type_name = 73 ∷ 78 ∷ 84 ∷ [];
  comment = [];
  array = (1, 3) ∷ [];
  guid = none;
  copy_mask = none;
  methods = none;
  attributes = some (record { name = 97 ∷ []; value = 98 ∷ [] } ∷ []);
  enums = none;
  tail = [];
}

-- A method `m` with a parameter `p`, which has an attribute.
abbrev pub p_parameter : ParameterEntry
p_parameter = record {
  size = 2;
  align_size = 2;
  ads_data_type = 2;
  flags = 0x41;
  reserved = 0;
  type_guid = 1 ∷ 2 ∷ 3 ∷ 4 ∷ 5 ∷ 6 ∷ 7 ∷ 8 ∷ 9 ∷ 10 ∷ 11 ∷ 12 ∷ 13 ∷ 14 ∷ 15 ∷ 16 ∷ [];
  length_is = 0;
  name = 112 ∷ [];
  type_name = 73 ∷ 78 ∷ 84 ∷ [];
  comment = [];
  attributes = some (record { name = 97 ∷ []; value = 98 ∷ [] } ∷ []);
  tail = [];
}

abbrev pub m_method : MethodEntry
m_method = record {
  version = 1;
  v_table_index = 0;
  return_size = 1;
  return_align_size = 1;
  reserved = 0;
  return_guid = 1 ∷ 2 ∷ 3 ∷ 4 ∷ 5 ∷ 6 ∷ 7 ∷ 8 ∷ 9 ∷ 10 ∷ 11 ∷ 12 ∷ 13 ∷ 14 ∷ 15 ∷ 16 ∷ [];
  return_ads_data_type = 33;
  flags = 0;
  name = 109 ∷ [];
  return_type = 66 ∷ [];
  comment = 99 ∷ [];
  parameters = p_parameter ∷ [];
  attributes = none;
  tail = [];
}

-- A structure that has them.
abbrev pub s_type : Entry
s_type = record x_field {
  size = 10;
  offset = some 0;
  base_type = 65;
  flags = 0x800;
  name = 83 ∷ [];
  type_name = [];
  array = [];
  methods = some (m_method ∷ []);
  attributes = none;
}

-- An enum of 16 bits, with the variants 1 and -1.
abbrev pub e_type : Entry
e_type = record s_type {
  size = 2;
  base_type = 2;
  flags = 0x2000;
  name = 69 ∷ [];
  methods = none;
  enums =
      some
        (record { name = 112 ∷ []; number = 1 } ∷ record { name = 110 ∷ []; number = 0xFFFF } ∷ []);
}

-- Its values as the decoder gives them, the second one as the 64-bit number of -1.
e_type-values :
    (type_of_entry (e_type, [])).enum_info
    ≡ some (
        record { name = 112 ∷ []; value = 1 } ∷ record { name = 110 ∷ []; value = 2 ^ 64 - 1 } ∷ [])
e_type-values = refl

abbrev pub two_types : List (Entry × List Entry)
two_types = (s_type, x_field ∷ []) ∷ (e_type, []) ∷ []
