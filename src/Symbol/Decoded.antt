-- ===== src/Symbol/Decoded.antt =====
-- The decoder of the type upload inverts the layout: the parts of an entry.
use openstar_ads.Common.{
  ℕ, ◌+◌, ◌-◌, ◌%◌, ◌^◌, ◌<◌, ◌≡◌, refl, ◌∙◌, String, List, ◌++◌, Option, none, some, length, map,
  arith, ==_ne,
}
use openstar_ads.Error.{ok}
use openstar_ads.Wire.Laws.{read_uint_step, read_exact-append}
use openstar_ads.Symbol.{
  Text, has_flag, type_flag_guid, type_flag_copy_mask, type_flag_attributes, type_flag_method_infos,
  type_flag_enum_infos,
}
use openstar_ads.Symbol.Fields.{parse_enum_infos, parse_attributes, parse_guid, skip_copy_mask}
use openstar_ads.Symbol.Methods.{optional, parse_method_infos}
use openstar_ads.Symbol.Format.{read_text_step}
use openstar_ads.Symbol.Decode.{Head, dimension, head, bulk_head, field_offset}
use openstar_ads.Symbol.Layout.{
  Entry, encode_dimension, encode_parts, encode_entry, encode_head, offset_code, guid_text,
  IsDimension, IsEntry,
}
use openstar_ads.Symbol.Parts.{
  encode_optional, encode_attributes, map_option, map-id, IsOptional, times-encode_all,
  optional-encode_optional, optional_attributes,
}
use openstar_ads.Symbol.MethodLayout.{encode_methods, method_of, IsMethods}
use openstar_ads.Symbol.MethodDecoded.{parse_method_infos-encode_methods}
use openstar_ads.Symbol.Variants.{
  encode_variants, variant_of, IsVariants, parse_enum_infos-encode_variants,
}

dimension-encode_dimension :
    (ctx : String) (d : ℕ × ℕ) (rest : List ℕ)
    → IsDimension d
    → dimension ctx (encode_dimension d rest) ≡ ok (d, rest)
unfolding dimension encode_dimension
dimension-encode_dimension ctx (lower, upper) rest w =
    let total = (upper + 1 + (2 ^ 32 - lower)) % 2 ^ 32 in
    let back : (lower + total + (2 ^ 32 - 1)) % 2 ^ 32 ≡ upper = omega arith in
    read_uint_step ctx 4 lower _ _ (omega arith)
    ∙ read_uint_step ctx 4 total _ _ (omega arith)
    ∙ rw back refl

parse_guid-append :
    (g rest : List ℕ) → length g ≡ 16 → parse_guid (g ++ rest) ≡ ok (guid_text g, rest)
unfolding parse_guid
parse_guid-append g rest h = rw (read_exact-append "parsing GUID" 16 g rest h) refl

skip_copy_mask-append :
    (size : ℕ) (m rest : List ℕ) → length m ≡ size → skip_copy_mask size (m ++ rest) ≡ ok (tt, rest)
unfolding skip_copy_mask
skip_copy_mask-append size m rest h = rw (read_exact-append "skipping copy mask" size m rest h) refl

offset_code-fits :
    (o : Option ℕ) → IsOptional (λ offset. offset < 0xFFFFFFFF) o → offset_code o < 256 ^ 4
offset_code-fits none w = omega arith
offset_code-fits (some offset) w = omega arith

pub field_offset-offset_code :
    (o : Option ℕ) → IsOptional (λ offset. offset < 0xFFFFFFFF) o → field_offset (offset_code o) ≡ o
field_offset-offset_code none w = refl
field_offset-offset_code (some offset) w =
    rw (==_ne offset 0xFFFFFFFF (λ e. absurd (omega arith))) refl

-- What the head of an encoded entry says.
abbrev pub head_of : Entry → ℕ → Head
head_of e sub_items = record {
  size = e.size;
  offset = offset_code e.offset;
  base_type = e.base_type;
  flags = e.flags;
  name = e.name;
  type_name = e.type_name;
  comment = e.comment;
  array = e.array;
  sub_items = sub_items;
}

module _ (lossy : List ℕ → Text) where
  pub head-encode_head :
      (ctx : String) (e : Entry) (sub_items : ℕ) (fields : List ℕ)
      → IsEntry lossy e
      → sub_items < 256 ^ 2
      → head lossy ctx (encode_head e sub_items fields)
        ≡ ok (head_of e sub_items, fields ++ encode_parts e)
  unfolding head encode_head
  head-encode_head ctx e sub_items fields w count =
      read_uint_step ctx 4 e.size _ _ w.size_fits
      ∙ read_uint_step ctx 4 (offset_code e.offset) _ _ (offset_code-fits e.offset w.offset_fits)
      ∙ read_uint_step ctx 4 e.base_type _ _ w.base_type_fits
      ∙ read_uint_step ctx 4 e.flags _ _ w.flags_fit
      ∙ read_uint_step ctx 2 (length e.name) _ _ (omega (arith, w.name_fits.room))
      ∙ read_uint_step ctx 2 (length e.type_name) _ _ (omega (arith, w.type_name_fits.room))
      ∙ read_uint_step ctx 2 (length e.comment) _ _ (omega (arith, w.comment_fits.room))
      ∙ read_uint_step ctx 2 (length e.array) _ _ w.array_fits
      ∙ read_uint_step ctx 2 sub_items _ _ count
      ∙ read_text_step lossy 1024 ctx e.name _ _ w.name_fits.room w.name_fits.utf8
      ∙ read_text_step lossy 1024 ctx e.type_name _ _ w.type_name_fits.room w.type_name_fits.utf8
      ∙ read_text_step lossy 1024 ctx e.comment _ _ w.comment_fits.room w.comment_fits.utf8
      ∙ rw
          (
            times-encode_all IsDimension (dimension ctx) encode_dimension (λ d. d) e.array _
                (dimension-encode_dimension ctx) w.dimensions_fit,
            map-id e.array,
          )
          refl

  pub bulk_head-encode_entry :
      (e : Entry) (sub_items : ℕ) (fields : List ℕ)
      → IsEntry lossy e
      → sub_items < 256 ^ 2
      → bulk_head lossy (encode_entry e sub_items fields)
        ≡ ok (head_of e sub_items, fields ++ encode_parts e)
  unfolding bulk_head encode_entry
  bulk_head-encode_entry e sub_items fields w count =
      let ctx : String = "decoding type info" in
      read_uint_step ctx 4 1 _ _ (omega arith)
      ∙ read_uint_step ctx 2 e.subitem_index _ _ w.subitem_fits
      ∙ read_uint_step ctx 2 e.plc_interface_id _ _ w.interface_fits
      ∙ read_uint_step ctx 4 e.reserved _ _ w.reserved_fits
      ∙ head-encode_head ctx e sub_items fields w count

  pub guid_part :
      (e : Entry) (rest : List ℕ)
      → IsEntry lossy e
      → optional
          (has_flag e.flags type_flag_guid)
          parse_guid
          (encode_optional (λ bytes rest. bytes ++ rest) e.guid rest)
        ≡ ok (map_option guid_text e.guid, rest)
  guid_part e rest w =
      optional-encode_optional (λ g. length g ≡ 16) parse_guid (λ bytes rest. bytes ++ rest)
        guid_text (has_flag e.flags type_flag_guid) e.guid rest (λ g. parse_guid-append g rest)
        w.guid_flag w.guid_fits

  pub mask_part :
      (e : Entry) (rest : List ℕ)
      → IsEntry lossy e
      → optional
          (has_flag e.flags type_flag_copy_mask)
          (skip_copy_mask e.size)
          (encode_optional (λ bytes rest. bytes ++ rest) e.copy_mask rest)
        ≡ ok (map_option (λ m. tt) e.copy_mask, rest)
  mask_part e rest w =
      optional-encode_optional (λ m. length m ≡ e.size) (skip_copy_mask e.size)
        (λ bytes rest. bytes ++ rest) (λ m. tt) (has_flag e.flags type_flag_copy_mask) e.copy_mask
        rest (λ m. skip_copy_mask-append e.size m rest) w.mask_flag w.mask_fits

  pub methods_part :
      (e : Entry) (rest : List ℕ)
      → IsEntry lossy e
      → optional
          (has_flag e.flags type_flag_method_infos)
          (parse_method_infos lossy)
          (encode_optional encode_methods e.methods rest)
        ≡ ok (map_option (map method_of) e.methods, rest)
  methods_part e rest w =
      optional-encode_optional (IsMethods lossy) (parse_method_infos lossy) encode_methods
        (map method_of) (has_flag e.flags type_flag_method_infos) e.methods rest
        (λ m. parse_method_infos-encode_methods lossy m rest) w.methods_flag w.methods_fit

  pub attributes_part :
      (e : Entry) (rest : List ℕ)
      → IsEntry lossy e
      → optional
          (has_flag e.flags type_flag_attributes)
          (parse_attributes lossy)
          (encode_optional encode_attributes e.attributes rest)
        ≡ ok (e.attributes, rest)
  attributes_part e rest w =
      optional_attributes lossy (has_flag e.flags type_flag_attributes) e.attributes rest
        w.attributes_flag w.attributes_fit

  pub enums_part :
      (e : Entry) (rest : List ℕ)
      → IsEntry lossy e
      → optional
          (has_flag e.flags type_flag_enum_infos)
          (parse_enum_infos lossy e.size e.base_type)
          (encode_optional (encode_variants e.size) e.enums rest)
        ≡ ok (map_option (map (variant_of e.base_type e.size)) e.enums, rest)
  enums_part e rest w =
      optional-encode_optional (IsVariants lossy e.base_type e.size)
        (parse_enum_infos lossy e.size e.base_type) (encode_variants e.size)
        (map (variant_of e.base_type e.size)) (has_flag e.flags type_flag_enum_infos) e.enums rest
        (λ v. parse_enum_infos-encode_variants lossy e.base_type e.size v rest) w.enums_flag
        w.enums_fit
