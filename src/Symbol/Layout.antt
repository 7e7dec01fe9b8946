-- ===== src/Symbol/Layout.antt =====
-- The layout of the type upload: an encoder for the types and fields that src/symbol/type.rs decodes.
use openstar_ads.Common.{
  ℕ, ◌+◌, ◌-◌, ◌%◌, ◌^◌, ◌<◌, ◌≡◌, List, [], ◌++◌, Option, none, some, All, length, take, drop, map,
}
use openstar_ads.Wire.{le_value, le_bytes}
use openstar_ads.Symbol.{
  Text, Attribute, Field, PlcType, has_flag, type_flag_guid, type_flag_copy_mask,
  type_flag_method_infos, type_flag_attributes, type_flag_enum_infos,
}
use openstar_ads.Symbol.Format.{encode_text, encode_sized}
use openstar_ads.Symbol.Fields.{hex, hex_bytes, dash}
use openstar_ads.Client.{is_some}
use openstar_ads.Symbol.Parts.{
  encode_all, encode_optional, encode_attributes, map_option, IsOptional, IsText, IsAttributes,
}
use openstar_ads.Symbol.MethodLayout.{MethodEntry, encode_methods, method_of, IsMethods}
use openstar_ads.Symbol.Variants.{VariantEntry, encode_variants, variant_of, IsVariants}

-- The bounds of an array dimension: the lower one, and the number of elements.
unfoldable pub encode_dimension : ℕ × ℕ → List ℕ → List ℕ
encode_dimension (lower, upper) rest =
    le_bytes 4 lower ++ (le_bytes 4 ((upper + 1 + (2 ^ 32 - lower)) % 2 ^ 32) ++ rest)

-- The entry of a type or a field: the words before its size, and its optional parts.
pub record Entry : Type 0 where
  pub subitem_index : ℕ
  pub plc_interface_id : ℕ
  pub reserved : ℕ
  pub size : ℕ
  pub offset : Option ℕ
  pub base_type : ℕ
  pub flags : ℕ
  pub name : Text
  pub type_name : Text
  pub comment : Text
  pub array : List (ℕ × ℕ)
  pub guid : Option (List ℕ)
  pub copy_mask : Option (List ℕ)
  pub methods : Option (List MethodEntry)
  pub attributes : Option (List Attribute)
  pub enums : Option (List VariantEntry)
  pub tail : List ℕ

abbrev pub offset_code : Option ℕ → ℕ
offset_code none = 0xFFFFFFFF
offset_code (some offset) = offset

unfoldable pub encode_parts : Entry → List ℕ
encode_parts e =
    encode_optional (λ bytes rest. bytes ++ rest) e.guid
      (encode_optional (λ bytes rest. bytes ++ rest) e.copy_mask
        (encode_optional encode_methods e.methods (
          encode_optional encode_attributes e.attributes
            (encode_optional (encode_variants e.size) e.enums e.tail))))

-- An entry from its size on, with `sub_items` fields, whose encoding is `fields`.
unfoldable pub encode_head : Entry → ℕ → List ℕ → List ℕ
unfolding encode_parts encode_all encode_dimension
encode_head e sub_items fields =
    le_bytes 4 e.size
    ++ (le_bytes 4 (offset_code e.offset)
        ++ (le_bytes 4 e.base_type
            ++ (le_bytes 4 e.flags
                ++ (le_bytes 2 (length e.name)
                    ++ (le_bytes 2 (length e.type_name)
                        ++ (le_bytes 2 (length e.comment)
                            ++ (le_bytes 2 (length e.array)
                                ++ (le_bytes 2 sub_items
                                    ++ encode_text e.name (
                                        encode_text e.type_name (
                                          encode_text e.comment (
                                            encode_all encode_dimension e.array
                                              (fields ++ encode_parts e))))))))))))

-- The whole entry of an upload.
unfoldable pub encode_entry : Entry → ℕ → List ℕ → List ℕ
unfolding encode_head
encode_entry e sub_items fields =
    le_bytes 4 1
    ++ (le_bytes 2 e.subitem_index
        ++ (le_bytes 2 e.plc_interface_id
            ++ (le_bytes 4 e.reserved ++ encode_head e sub_items fields)))

abbrev pub encode_field : Entry → List ℕ
encode_field e = encode_entry e 0 []

-- A type and its fields.
unfoldable pub encode_type : Entry × List Entry → List ℕ
unfolding encode_sized
encode_type (t, fields) = encode_entry t (length fields) (encode_sized (map encode_field fields))

-- What the entries say.
abbrev pub field_of_entry : Entry → Field
field_of_entry e = record {
  name = e.name;
  typ = e.type_name;
  offset = e.offset;
  size = e.size;
  array = e.array;
  base_type = e.base_type;
  flags = e.flags;
  comment = e.comment;
  attributes = e.attributes;
}

-- A GUID as it is written: the bytes of its first three parts in reverse.
abbrev pub guid_text : List ℕ → Text
guid_text g =
    hex 8 (le_value (take 4 g))
    ++ dash (
        hex 4 (le_value (take 2 (drop 4 g)))
        ++ dash (
            hex 4 (le_value (take 2 (drop 6 g)))
            ++ dash (hex_bytes (take 2 (drop 8 g)) ++ dash (hex_bytes (drop 10 g)))))

abbrev pub type_of_entry : Entry × List Entry → PlcType
type_of_entry (e, fields) = record {
  name = e.name;
  type_name = e.type_name;
  comment = e.comment;
  size = e.size;
  array = e.array;
  fields = map field_of_entry fields;
  base_type = e.base_type;
  flags = e.flags;
  guid = map_option guid_text e.guid;
  methods = map_option (map method_of) e.methods;
  attributes = e.attributes;
  enum_info = map_option (map (variant_of e.base_type e.size)) e.enums;
}

abbrev pub IsDimension : ℕ × ℕ → Type 0
IsDimension (lower, upper) = (lower < 2 ^ 32) × (upper < 2 ^ 32)

module _ (lossy : List ℕ → Text) where
  -- An entry whose numbers fit, whose texts fit the decoder's buffer and are UTF-8, and whose flags
  -- say which of its parts are there.
  pub record IsEntry (e : Entry) : Type 0 where
    pub subitem_fits : e.subitem_index < 256 ^ 2
    pub interface_fits : e.plc_interface_id < 256 ^ 2
    pub reserved_fits : e.reserved < 256 ^ 4
    pub size_fits : e.size < 256 ^ 4
    pub offset_fits : IsOptional (λ offset. offset < 0xFFFFFFFF) e.offset
    pub base_type_fits : e.base_type < 256 ^ 4
    pub flags_fit : e.flags < 256 ^ 4
    pub name_fits : IsText lossy 1024 e.name
    pub type_name_fits : IsText lossy 1024 e.type_name
    pub comment_fits : IsText lossy 1024 e.comment
    pub array_fits : length e.array < 256 ^ 2
    pub dimensions_fit : All IsDimension e.array
    pub guid_flag : has_flag e.flags type_flag_guid ≡ is_some e.guid
    pub guid_fits : IsOptional (λ g. length g ≡ 16) e.guid
    pub mask_flag : has_flag e.flags type_flag_copy_mask ≡ is_some e.copy_mask
    pub mask_fits : IsOptional (λ m. length m ≡ e.size) e.copy_mask
    pub attributes_flag : has_flag e.flags type_flag_attributes ≡ is_some e.attributes
    pub attributes_fit : IsOptional (IsAttributes lossy) e.attributes
    pub methods_flag : has_flag e.flags type_flag_method_infos ≡ is_some e.methods
    pub methods_fit : IsOptional (IsMethods lossy) e.methods
    pub enums_flag : has_flag e.flags type_flag_enum_infos ≡ is_some e.enums
    pub enums_fit : IsOptional (IsVariants lossy e.base_type e.size) e.enums
