-- ===== src/Symbol/Upload.antt =====
-- The decoder of both uploads, types and symbols, inverts their layouts.
use openstar_ads.Common.{
  ℕ, ◌+◌, ◌^◌, ◌<◌, ◌≡◌, refl, ap, String, List, [], ◌++◌, true, some, All, length, map, arith,
  ◌==◌,
}
use openstar_ads.Error.{ok}
use openstar_ads.Symbol.{
  Text, Field, PlcType, Symbol, has_flag, type_flag_method_infos, type_flag_enum_infos,
}
use openstar_ads.Symbol.Fields.{times}
use openstar_ads.Symbol.Methods.{optional, parse_field_attributes, parse_type_flags}
use openstar_ads.Symbol.Format
use openstar_ads.Symbol.Format.{
  encode_sized, encode_entries, raw_entry-append, Parses, until_empty-encode_sized, All-imp,
  decode_symbols-encode_entries,
}
use openstar_ads.Symbol.Decode.{
  Head, type_of, raw_entry, decode_field_info, decode_type_info, decode_types, with_types, type_map,
  decode_symbol_info,
}
use openstar_ads.Symbol.Layout.{
  Entry, encode_parts, encode_field, encode_type, field_of_entry, type_of_entry, IsEntry, guid_text,
  offset_code,
}
use openstar_ads.Symbol.Parts.{map_option, times-encode_sized}
use openstar_ads.Symbol.MethodLayout.{method_of}
use openstar_ads.Symbol.Variants.{variant_of}
use openstar_ads.Symbol.Decoded.{
  head_of, bulk_head-encode_entry, field_offset-offset_code, guid_part, mask_part, methods_part,
  attributes_part, enums_part,
}

module _ (lossy : List ℕ → Text) where
  decode_field_info-encode_field :
      (e : Entry)
      → IsEntry lossy e
      → decode_field_info lossy (encode_field e) ≡ ok (field_of_entry e)
  unfolding decode_field_info parse_field_attributes optional encode_parts
  decode_field_info-encode_field e w = rw (
    bulk_head-encode_entry lossy e 0 [] w (omega arith),
    guid_part lossy e _ w,
    mask_part lossy e _ w,
    methods_part lossy e _ w,
    attributes_part lossy e _ w,
    field_offset-offset_code e.offset w.offset_fits,
  )

  -- A field that fits its sub-entry.
  abbrev pub IsField : Entry → Type 0
  IsField e = IsEntry lossy e × (4 + length (encode_field e) < 256 ^ 4)

  -- The loop over the sub-entries of a type.
  fields_read :
      (fields : List Entry) (rest : List ℕ)
      → All IsField fields
      → times
          (raw_entry "decoding type info" (decode_field_info lossy))
          (length fields)
          (encode_sized (map encode_field fields) ++ rest)
        ≡ ok (map field_of_entry fields, rest)
  fields_read fields rest w =
      let ctx : String = "decoding type info" in
      times-encode_sized IsField (raw_entry ctx (decode_field_info lossy)) encode_field
        field_of_entry fields rest
        (λ e more we.
          raw_entry-append ctx (decode_field_info lossy) (encode_field e) more (field_of_entry e)
            we.1 (decode_field_info-encode_field e we.0))
        w

  -- A type that is not placed in another one, with its fields.
  pub record IsTypeEntry (t : Entry × List Entry) : Type 0 where
    pub entry_fits : IsEntry lossy t.0
    pub no_offset : t.0.offset ≡ some 0
    pub count_fits : length t.1 < 256 ^ 2
    pub fields_fit : All IsField t.1
    pub body_fits : 4 + length (encode_type t) < 256 ^ 4

  pub parts_read :
      (e : Entry) (h : Head) (fields : List Field)
      → h.flags ≡ e.flags
      → h.size ≡ e.size
      → h.base_type ≡ e.base_type
      → IsEntry lossy e
      → parse_type_flags lossy (type_of h fields) (encode_parts e)
        ≡ ok (
          record (type_of h fields) {
            guid = map_option guid_text e.guid;
            methods = map_option (map method_of) e.methods;
            attributes = e.attributes;
            enum_info = map_option (map (variant_of e.base_type e.size)) e.enums;
          },
          e.tail,
        )
  unfolding parse_type_flags optional encode_parts
  parts_read e h fields same_flags same_size same_base_type w = rw (
    same_flags,
    same_size,
    same_base_type,
    guid_part lossy e _ w,
    mask_part lossy e _ w,
    methods_part lossy e _ w,
    attributes_part lossy e _ w,
    enums_part lossy e _ w,
  )

  decode_type_info-encode_type :
      (t : Entry × List Entry)
      → IsTypeEntry t
      → decode_type_info lossy (encode_type t) ≡ ok (type_of_entry t)
  unfolding decode_type_info encode_type
  decode_type_info-encode_type (e, fields) w =
      let at_zero : (offset_code e.offset == 0) ≡ true = ap (λ o. offset_code o == 0) w.no_offset in
      rw (
        bulk_head-encode_entry lossy e (length fields) (encode_sized (map encode_field fields))
            w.entry_fits w.count_fits,
        at_zero,
        fields_read fields (encode_parts e) w.fields_fit,
        parts_read e (head_of e (length fields)) (map field_of_entry fields) refl refl refl
            w.entry_fits,
      )

  -- Both uploads round-trip: entries whose numbers fit, whose texts fit the decoder's buffers and
  -- are UTF-8, and whose flags say which parts they have, are decoded to the symbols that they
  -- describe, in order, and to the map of the types that they describe, with their fields, array
  -- bounds, GUIDs, RPC methods, attributes and enum variants, where a type with variants is an
  -- integer.
  pub decode_symbol_info-encode :
      (symbols : List openstar_ads.Symbol.Format.Entry) (types : List (Entry × List Entry))
      → All (openstar_ads.Symbol.Format.IsEntry lossy) symbols
      → All IsTypeEntry types
      → decode_symbol_info lossy (encode_entries symbols) (encode_sized (map encode_type types))
        ≡ some (ok (map (λ e. e.symbol) symbols, type_map [] (map type_of_entry types)))
  unfolding decode_symbol_info decode_types with_types
  decode_symbol_info-encode symbols types ws wt =
      rw
        (
          until_empty-encode_sized "decoding type info" (decode_type_info lossy) encode_type
              type_of_entry types
              (All-imp IsTypeEntry _ types (λ t w. (w.body_fits, decode_type_info-encode_type t w))
                wt),
          decode_symbols-encode_entries lossy symbols ws,
        )
        refl
