-- ===== src/Symbol/Variants.antt =====
-- The layout of the variants of an enum, which `parse_enum_infos` of src/symbol/type.rs inverts.
use openstar_ads.Common.{
  ℕ, ◌*◌, ◌^◌, ◌<◌, ◌≡◌, refl, sym, ◌∙◌, String, List, [], ◌++◌, Bool, All, length, map, arith,
  if◌then◌else◌, ◌==◌, ◌||◌, take-append_at, le→ltb, append-nil, ap, take,
}
use openstar_ads.Error.{ok}
use openstar_ads.Wire.{le_bytes, split_at}
use openstar_ads.Wire.Laws.{read_uint_step, read_exact_step, length-le_bytes, le_value-le_bytes}
use openstar_ads.Symbol.{Text, EnumInfo}
use openstar_ads.Symbol.Fields.{
  sign_extend, prefix, signed_prefix, sized_value, enum_value, enum_info, parse_enum_infos,
}
use openstar_ads.Symbol.Format.{encode_text, read_text_step}
use openstar_ads.Symbol.Parts.{encode_all, IsText, times-encode_all}

-- The integer types of a PLC: the base type and the size. The last four are for `ADST_BIGTYPE`, the
-- base type of what has no base type of its own.
pub data IsInteger : ℕ → ℕ → Type 0 where
  int16 : IsInteger 2 2
  int32 : IsInteger 3 4
  int8 : IsInteger 16 1
  uint8 : IsInteger 17 1
  uint16 : IsInteger 18 2
  uint32 : IsInteger 19 4
  int64 : IsInteger 20 8
  uint64 : IsInteger 21 8
  big8 : IsInteger 65 1
  big16 : IsInteger 65 2
  big32 : IsInteger 65 4
  big64 : IsInteger 65 8

-- A variant, with the number that its bytes hold.
pub record VariantEntry : Type 0 where
  pub name : Text
  pub number : ℕ

unfoldable pub encode_variant : ℕ → VariantEntry → List ℕ → List ℕ
encode_variant size v rest =
    le_bytes 1 (length v.name) ++ encode_text v.name (le_bytes size v.number ++ rest)

unfoldable pub encode_variants : ℕ → List VariantEntry → List ℕ → List ℕ
unfolding encode_all encode_variant
encode_variants size variants rest =
    le_bytes 2 (length variants) ++ encode_all (encode_variant size) variants rest

-- If an integer of a base type and a size is signed.
abbrev pub is_signed : ℕ → ℕ → Bool
is_signed base_type size =
    if base_type == 65
    then (size == 2) || (size == 4)
    else (base_type == 2) || ((base_type == 3) || (base_type == 16))

-- The 64-bit number of the same value.
abbrev pub widen : Bool → ℕ → ℕ → ℕ
widen signed size number = if signed then sign_extend (8 * size) number else number

abbrev pub variant_of : ℕ → ℕ → VariantEntry → EnumInfo
variant_of base_type size v = record {
  name = v.name;
  value = widen (is_signed base_type size) size v.number;
}

prefix-le_bytes : (n v : ℕ) → v < 256 ^ n → prefix n (le_bytes n v) ≡ ok v
unfolding split_at
prefix-le_bytes n v h = rw (
  le→ltb (length (le_bytes n v)) n (omega (arith, length-le_bytes n v)),
  ap (take n) (sym (append-nil (le_bytes n v))),
  take-append_at n (le_bytes n v) [] (length-le_bytes n v),
  le_value-le_bytes n v h,
)

signed_prefix-le_bytes :
    (n v : ℕ) → v < 256 ^ n → signed_prefix n (le_bytes n v) ≡ ok (sign_extend (8 * n) v)
signed_prefix-le_bytes n v h = rw (prefix-le_bytes n v h)

enum_value-le_bytes :
    (base_type size number : ℕ)
    → IsInteger base_type size
    → number < 256 ^ size
    → enum_value size base_type (le_bytes size number)
      ≡ ok (widen (is_signed base_type size) size number)
unfolding enum_value sized_value
enum_value-le_bytes _ _ v int16 h = signed_prefix-le_bytes 2 v h
enum_value-le_bytes _ _ v int32 h = signed_prefix-le_bytes 4 v h
enum_value-le_bytes _ _ v int8 h = signed_prefix-le_bytes 1 v h
enum_value-le_bytes _ _ v uint8 h = prefix-le_bytes 1 v h
enum_value-le_bytes _ _ v uint16 h = prefix-le_bytes 2 v h
enum_value-le_bytes _ _ v uint32 h = prefix-le_bytes 4 v h
enum_value-le_bytes _ _ v int64 h = prefix-le_bytes 8 v h
enum_value-le_bytes _ _ v uint64 h = prefix-le_bytes 8 v h
enum_value-le_bytes _ _ v big8 h = prefix-le_bytes 1 v h
enum_value-le_bytes _ _ v big16 h = signed_prefix-le_bytes 2 v h
enum_value-le_bytes _ _ v big32 h = signed_prefix-le_bytes 4 v h
enum_value-le_bytes _ _ v big64 h = prefix-le_bytes 8 v h

module _ (lossy : List ℕ → Text) where
  pub record IsVariant (size : ℕ) (v : VariantEntry) : Type 0 where
    pub name_fits : IsText lossy 256 v.name
    pub number_fits : v.number < 256 ^ size

  -- The variants of a type that is an integer.
  pub record IsVariants (base_type size : ℕ) (variants : List VariantEntry) : Type 0 where
    pub count_fits : length variants < 256 ^ 2
    pub integer : IsInteger base_type size
    pub each : All (IsVariant size) variants

module _ (lossy : List ℕ → Text) where
  enum_info-encode_variant :
      (base_type size : ℕ) (v : VariantEntry) (rest : List ℕ)
      → IsInteger base_type size
      → IsVariant lossy size v
      → enum_info lossy size base_type (encode_variant size v rest)
        ≡ ok (variant_of base_type size v, rest)
  unfolding enum_info encode_variant
  enum_info-encode_variant base_type size v rest i w =
      let ctx : String = "parsing enum infos" in
      read_uint_step ctx 1 (length v.name) _ _ (omega (arith, w.name_fits.room))
      ∙ read_text_step lossy 256 ctx v.name _ _ w.name_fits.room w.name_fits.utf8
      ∙ read_exact_step ctx size (le_bytes size v.number) _ _ (length-le_bytes size v.number)
      ∙ rw (enum_value-le_bytes base_type size v.number i w.number_fits) refl

  -- The variants of an enum are read back from their encoding.
  pub parse_enum_infos-encode_variants :
      (base_type size : ℕ) (variants : List VariantEntry) (rest : List ℕ)
      → IsVariants lossy base_type size variants
      → parse_enum_infos lossy size base_type (encode_variants size variants rest)
        ≡ ok (map (variant_of base_type size) variants, rest)
  unfolding parse_enum_infos encode_variants
  parse_enum_infos-encode_variants base_type size variants rest w =
      read_uint_step "parsing enum infos" 2 (length variants) _ _ w.count_fits
      ∙ times-encode_all (IsVariant lossy size) (enum_info lossy size base_type)
          (encode_variant size) (variant_of base_type size) variants rest
          (λ v more. enum_info-encode_variant base_type size v more w.integer) w.each
