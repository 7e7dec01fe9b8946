-- ===== src/Symbol/Samples/Fits.antt =====
-- The entries of the examples fit their fields.
use openstar_ads.Common.{refl, [], ◌∷◌, arith}
use openstar_ads.Wire.{le_bytes}
use openstar_ads.Symbol.{Text, Symbol, PlcType, Attribute}
use openstar_ads.Symbol.Format
use openstar_ads.Symbol.Format.{
  encode_body, encode_entries, encode_sized, decode_symbols-encode_entries,
}
use openstar_ads.Symbol.Layout.{
  IsEntry, encode_entry, encode_head, encode_type, encode_dimension, encode_parts,
}
use openstar_ads.Symbol.Parts.{encode_all, encode_attributes, encode_attribute, IsAttributes}
use openstar_ads.Symbol.MethodLayout.{
  encode_parameter, encode_method, encode_methods, IsParameter, IsMethod,
}
use openstar_ads.Symbol.Variants.{encode_variants, encode_variant, int16}
use openstar_ads.Symbol.Upload.{IsTypeEntry}
use openstar_ads.Symbol.Samples.{ascii, a_symbol, x_field, p_parameter, m_method, s_type, e_type}

pub a_symbol-IsEntry : openstar_ads.Symbol.Format.IsEntry ascii a_symbol
unfolding encode_body le_bytes
a_symbol-IsEntry = record {
  group_fits = omega arith;
  offset_fits = omega arith;
  size_fits = omega arith;
  base_type_fits = omega arith;
  flags_fit = omega arith;
  array_dim_fits = omega arith;
  comment_len_fits = omega arith;
  name_fits = omega arith;
  typ_fits = omega arith;
  name_utf8 = refl;
  typ_utf8 = refl;
  body_fits = omega arith;
}

one_attribute : IsAttributes ascii (record { name = 97 ∷ []; value = 98 ∷ [] } ∷ [])
one_attribute = record {
  count_fits = omega arith;
  each = (
    record {
      name_fits = record { room = omega arith; utf8 = refl };
      value_fits = record { room = omega arith; utf8 = refl };
    },
    tt,
  );
}

p_parameter-IsParameter : IsParameter ascii p_parameter
unfolding encode_parameter encode_attributes encode_attribute encode_all le_bytes
p_parameter-IsParameter = record {
  size_fits = omega arith;
  align_size_fits = omega arith;
  data_type_fits = omega arith;
  flags_fit = omega arith;
  reserved_fits = omega arith;
  guid_fits = refl;
  length_is_fits = omega arith;
  name_fits = record { room = omega arith; utf8 = refl };
  type_name_fits = record { room = omega arith; utf8 = refl };
  comment_fits = record { room = omega arith; utf8 = refl };
  attributes_flag = refl;
  attributes_fit = one_attribute;
  body_fits = omega arith;
}

m_method-IsMethod : IsMethod ascii m_method
unfolding encode_method encode_sized encode_parameter encode_attributes encode_attribute encode_all
    le_bytes
m_method-IsMethod = record {
  version_fits = omega arith;
  index_fits = omega arith;
  size_fits = omega arith;
  align_size_fits = omega arith;
  reserved_fits = omega arith;
  guid_fits = refl;
  data_type_fits = omega arith;
  flags_fit = omega arith;
  name_fits = record { room = omega arith; utf8 = refl };
  return_type_fits = record { room = omega arith; utf8 = refl };
  comment_fits = record { room = omega arith; utf8 = refl };
  count_fits = omega arith;
  parameters_fit = (p_parameter-IsParameter, tt);
  attributes_flag = refl;
  attributes_fit = tt;
  body_fits = omega arith;
}

pub x_field-IsEntry : IsEntry ascii x_field
x_field-IsEntry = record {
  subitem_fits = omega arith;
  interface_fits = omega arith;
  reserved_fits = omega arith;
  size_fits = omega arith;
  offset_fits = omega arith;
  base_type_fits = omega arith;
  flags_fit = omega arith;
  name_fits = record { room = omega arith; utf8 = refl };
  type_name_fits = record { room = omega arith; utf8 = refl };
  comment_fits = record { room = omega arith; utf8 = refl };
  array_fits = omega arith;
  dimensions_fit = omega arith;
  guid_flag = refl;
  guid_fits = tt;
  mask_flag = refl;
  mask_fits = tt;
  attributes_flag = refl;
  attributes_fit = one_attribute;
  methods_flag = refl;
  methods_fit = tt;
  enums_flag = refl;
  enums_fit = tt;
}

pub s_type-IsEntry : IsEntry ascii s_type
s_type-IsEntry = record {
  subitem_fits = omega arith;
  interface_fits = omega arith;
  reserved_fits = omega arith;
  size_fits = omega arith;
  offset_fits = omega arith;
  base_type_fits = omega arith;
  flags_fit = omega arith;
  name_fits = record { room = omega arith; utf8 = refl };
  type_name_fits = record { room = omega arith; utf8 = refl };
  comment_fits = record { room = omega arith; utf8 = refl };
  array_fits = omega arith;
  dimensions_fit = tt;
  guid_flag = refl;
  guid_fits = tt;
  mask_flag = refl;
  mask_fits = tt;
  attributes_flag = refl;
  attributes_fit = tt;
  methods_flag = refl;
  methods_fit = record { count_fits = omega arith; each = (m_method-IsMethod, tt) };
  enums_flag = refl;
  enums_fit = tt;
}

e_type-IsEntry : IsEntry ascii e_type
e_type-IsEntry = record {
  subitem_fits = omega arith;
  interface_fits = omega arith;
  reserved_fits = omega arith;
  size_fits = omega arith;
  offset_fits = omega arith;
  base_type_fits = omega arith;
  flags_fit = omega arith;
  name_fits = record { room = omega arith; utf8 = refl };
  type_name_fits = record { room = omega arith; utf8 = refl };
  comment_fits = record { room = omega arith; utf8 = refl };
  array_fits = omega arith;
  dimensions_fit = tt;
  guid_flag = refl;
  guid_fits = tt;
  mask_flag = refl;
  mask_fits = tt;
  attributes_flag = refl;
  attributes_fit = tt;
  methods_flag = refl;
  methods_fit = tt;
  enums_flag = refl;
  enums_fit = record {
    count_fits = omega arith;
    integer = int16;
    each = (
      record { name_fits = record { room = omega arith; utf8 = refl }; number_fits = omega arith },
      (
        record {
          name_fits = record { room = omega arith; utf8 = refl };
          number_fits = omega arith;
        },
        tt,
      ),
    );
  };
}

pub s_type-IsTypeEntry : IsTypeEntry ascii (s_type, x_field ∷ [])
unfolding encode_type encode_entry encode_head encode_sized encode_parts encode_attributes
    encode_attribute encode_dimension encode_all encode_methods encode_method encode_parameter
    encode_variants encode_variant le_bytes
s_type-IsTypeEntry = record {
  entry_fits = s_type-IsEntry;
  no_offset = refl;
  count_fits = omega arith;
  fields_fit = ((x_field-IsEntry, omega arith), tt);
  body_fits = omega arith;
}

pub e_type-IsTypeEntry : IsTypeEntry ascii (e_type, [])
unfolding encode_type encode_entry encode_head encode_sized encode_parts encode_all encode_variants
    encode_variant le_bytes
e_type-IsTypeEntry = record {
  entry_fits = e_type-IsEntry;
  no_offset = refl;
  count_fits = omega arith;
  fields_fit = tt;
  body_fits = omega arith;
}
