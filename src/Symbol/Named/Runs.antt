-- ===== src/Symbol/Named/Runs.antt =====
-- An example of a type that is asked for by name.
use openstar_ads.Common.{◌+◌, ◌^◌, ◌<◌, ◌≡◌, [], ◌∷◌, ◌++◌, length, arith}
use openstar_ads.Error.{ok}
use openstar_ads.Wire.{le_bytes}
use openstar_ads.Symbol.Format.{encode_sized}
use openstar_ads.Symbol.Layout.{encode_head, encode_dimension, encode_parts, type_of_entry}
use openstar_ads.Symbol.Parts.{encode_all, encode_attributes, encode_attribute}
use openstar_ads.Symbol.MethodLayout.{encode_methods, encode_method, encode_parameter}
use openstar_ads.Symbol.ByName.{type_info_reply}
use openstar_ads.Symbol.Named.{
  NamedEntry, IsNamed, encode_named, encode_named_field, encode_named_type, type_info_reply-encode,
}
use openstar_ads.Symbol.Samples.{ascii, x_field, s_type}
use openstar_ads.Symbol.Samples.Fits.{x_field-IsEntry, s_type-IsEntry}

abbrev named_x : NamedEntry
named_x = record { version = 1; hash = 7; type_hash = 9; entry_of = x_field }

abbrev named_s : NamedEntry
named_s = record { version = 1; hash = 5; type_hash = 6; entry_of = s_type }

named_x-IsNamed : IsNamed ascii named_x
named_x-IsNamed = record {
  version_fits = omega arith;
  hash_fits = omega arith;
  type_hash_fits = omega arith;
  entry_fits = x_field-IsEntry;
}

named_s-IsNamed : IsNamed ascii named_s
named_s-IsNamed = record {
  version_fits = omega arith;
  hash_fits = omega arith;
  type_hash_fits = omega arith;
  entry_fits = s_type-IsEntry;
}

field_fits : 4 + length (encode_named_field named_x) < 256 ^ 4
unfolding encode_named encode_head encode_parts encode_attributes encode_attribute encode_dimension
    encode_all le_bytes
field_fits = omega arith

type_fits : 4 + length (encode_named_type (named_s, named_x ∷ [])) < 256 ^ 4
unfolding encode_named encode_head encode_sized encode_parts encode_attributes encode_attribute
    encode_dimension encode_all encode_methods encode_method encode_parameter le_bytes
type_fits = omega arith

type_info_reply-encode_example :
    type_info_reply ascii (
      le_bytes 4 (4 + length (encode_named_type (named_s, named_x ∷ [])))
      ++ (encode_named_type (named_s, named_x ∷ []) ++ (0 ∷ 0 ∷ [])))
    ≡ ok (type_of_entry (s_type, x_field ∷ []))
type_info_reply-encode_example =
    type_info_reply-encode ascii named_s (named_x ∷ []) (0 ∷ 0 ∷ []) named_s-IsNamed (omega arith)
      ((named_x-IsNamed, field_fits), tt) type_fits
