-- ===== src/Symbol/Named.antt =====
-- The decoder of a type that is asked for by name inverts the layout of the reply.
mod Runs
use openstar_ads.Common.{
  ℕ, zero, suc, ◌+◌, ◌-◌, ◌^◌, ◌≤◌, ◌<◌, ◌≡◌, refl, sym, ap, ◌∙◌, String, List, [], ◌∷◌, ◌++◌, Bool,
  true, false, All, length, take, drop, min, map, arith, append_assoc, if◌then◌else◌, ltb, le→ltb,
  length-append, take-append_at, drop-append_at, take_over,
}
use openstar_ads.Error.{Error, Result, ok, err, panic, ◌>>=◌, ◌>>◌, guard, assert}
use openstar_ads.Wire.{le_value, le_bytes, split_at}
use openstar_ads.Wire.Laws.{read_uint_step, length-le_bytes, le_value-le_bytes}
use openstar_ads.Symbol.{Text, Field, PlcType}
use openstar_ads.Symbol.Fields.{times}
use openstar_ads.Symbol.Methods.{entry, optional, parse_field_attributes}
use openstar_ads.Symbol.Format.{encode_sized}
use openstar_ads.Symbol.Layout.{
  Entry, encode_parts, encode_head, field_of_entry, type_of_entry, IsEntry,
}
use openstar_ads.Symbol.Decoded.{
  head_of, head-encode_head, field_offset-offset_code, guid_part, mask_part, methods_part,
  attributes_part,
}
use openstar_ads.Symbol.Parts.{entry-append, times-encode_sized}
use openstar_ads.Symbol.Upload.{parts_read}
use openstar_ads.Symbol.ByName.{
  named_head, decode_field_by_name, decode_type_info_by_name, type_info_reply,
}

-- An entry, and the three words that it begins with here.
pub record NamedEntry : Type 0 where
  pub version : ℕ
  pub hash : ℕ
  pub type_hash : ℕ
  pub entry_of : Entry

unfoldable pub encode_named : NamedEntry → ℕ → List ℕ → List ℕ
encode_named e sub_items fields =
    le_bytes 4 e.version
    ++ (le_bytes 4 e.hash ++ (le_bytes 4 e.type_hash ++ encode_head e.entry_of sub_items fields))

abbrev pub encode_named_field : NamedEntry → List ℕ
encode_named_field e = encode_named e 0 []

abbrev pub encode_named_type : NamedEntry × List NamedEntry → List ℕ
encode_named_type (t, fields) =
    encode_named t (length fields) (encode_sized (map encode_named_field fields))

abbrev pub entries_of : List NamedEntry → List Entry
entries_of fields = map (λ e. e.entry_of) fields

map-entries_of :
    (fields : List NamedEntry)
    → map (λ e. field_of_entry e.entry_of) fields ≡ map field_of_entry (entries_of fields)
map-entries_of [] = refl
map-entries_of (e ∷ es) = ap (λ xs. field_of_entry e.entry_of ∷ xs) (map-entries_of es)

module _ (lossy : List ℕ → Text) where
  pub record IsNamed (e : NamedEntry) : Type 0 where
    pub version_fits : e.version < 256 ^ 4
    pub hash_fits : e.hash < 256 ^ 4
    pub type_hash_fits : e.type_hash < 256 ^ 4
    pub entry_fits : IsEntry lossy e.entry_of

  named_head-encode_named :
      (e : NamedEntry) (sub_items : ℕ) (fields : List ℕ)
      → IsNamed e
      → sub_items < 256 ^ 2
      → named_head lossy (encode_named e sub_items fields)
        ≡ ok (head_of e.entry_of sub_items, fields ++ encode_parts e.entry_of)
  unfolding named_head encode_named
  named_head-encode_named e sub_items fields w count =
      let ctx : String = "decoding type info by name" in
      read_uint_step ctx 4 e.version _ _ w.version_fits
      ∙ read_uint_step ctx 4 e.hash _ _ w.hash_fits
      ∙ read_uint_step ctx 4 e.type_hash _ _ w.type_hash_fits
      ∙ head-encode_head lossy ctx e.entry_of sub_items fields w.entry_fits count

  field_read :
      (e : NamedEntry)
      → IsNamed e
      → decode_field_by_name lossy (encode_named_field e) ≡ ok (field_of_entry e.entry_of)
  unfolding decode_field_by_name parse_field_attributes optional encode_parts
  field_read e w = rw (
    named_head-encode_named e 0 [] w (omega arith),
    guid_part lossy e.entry_of _ w.entry_fits,
    mask_part lossy e.entry_of _ w.entry_fits,
    methods_part lossy e.entry_of _ w.entry_fits,
    attributes_part lossy e.entry_of _ w.entry_fits,
    field_offset-offset_code e.entry_of.offset w.entry_fits.offset_fits,
  )

  -- A field that fits its sub-entry.
  abbrev pub IsNamedField : NamedEntry → Type 0
  IsNamedField e = IsNamed e × (4 + length (encode_named_field e) < 256 ^ 4)

  fields_read :
      (fields : List NamedEntry) (rest : List ℕ)
      → All IsNamedField fields
      → times
          (entry "decoding type info by name" "invalid sub-item entry length"
            (decode_field_by_name lossy))
          (length fields)
          (encode_sized (map encode_named_field fields) ++ rest)
        ≡ ok (map field_of_entry (entries_of fields), rest)
  fields_read fields rest w =
      let ctx : String = "decoding type info by name" in
      let what : String = "invalid sub-item entry length" in
      times-encode_sized IsNamedField (entry ctx what (decode_field_by_name lossy))
        encode_named_field (λ e. field_of_entry e.entry_of) fields rest
        (λ e more we.
          entry-append ctx what (decode_field_by_name lossy) (encode_named_field e) more
            (field_of_entry e.entry_of) we.1 (field_read e we.0))
        w
      ∙ ap (λ xs. ok (xs, rest)) (map-entries_of fields)

  type_read :
      (t : NamedEntry) (fields : List NamedEntry)
      → IsNamed t
      → length fields < 256 ^ 2
      → All IsNamedField fields
      → decode_type_info_by_name lossy (encode_named_type (t, fields))
        ≡ ok (type_of_entry (t.entry_of, entries_of fields))
  unfolding decode_type_info_by_name
  type_read t fields w count ws = rw (
    named_head-encode_named t (length fields) (encode_sized (map encode_named_field fields)) w
        count,
    fields_read fields (encode_parts t.entry_of) ws,
    parts_read lossy t.entry_of (head_of t.entry_of (length fields))
        (map field_of_entry (entries_of fields)) refl refl refl w.entry_fits,
  )

  -- The reply to a query by name round-trips: behind its length, an entry whose numbers fit, whose
  -- texts fit the decoder's buffers and are UTF-8, and whose flags say which parts it has, is
  -- decoded to the type that it describes, with its fields, RPC methods, attributes and, if it is an
  -- integer, enum variants; bytes behind the entry's length are left aside.
  pub type_info_reply-encode :
      (t : NamedEntry) (fields : List NamedEntry) (rest : List ℕ)
      → IsNamed t
      → length fields < 256 ^ 2
      → All IsNamedField fields
      → 4 + length (encode_named_type (t, fields)) < 256 ^ 4
      → type_info_reply lossy (
          le_bytes 4 (4 + length (encode_named_type (t, fields)))
          ++ (encode_named_type (t, fields) ++ rest))
        ≡ ok (type_of_entry (t.entry_of, entries_of fields))
  unfolding type_info_reply
  type_info_reply-encode t fields rest w count ws fits =
      let body = encode_named_type (t, fields) in
      let n = 4 + length body in
      let word = le_bytes 4 n in
      let resp = word ++ (body ++ rest) in
      let size : length resp ≡ 4 + (length body + length rest) =
        omega (
          arith,
          length-append word (body ++ rest),
          length-le_bytes 4 n,
          length-append body rest,
        ) in
      let value : le_value (take 4 resp) ≡ n =
        ap le_value (take-append_at 4 word (body ++ rest) (length-le_bytes 4 n))
        ∙ le_value-le_bytes 4 n fits in
      let least : min n (length resp) ≡ n = omega arith in
      let cut : take n resp ≡ word ++ body =
        ap (take n) (sym (append_assoc word body rest))
        ∙ take-append_at n (word ++ body) rest
            (omega (arith, length-append word body, length-le_bytes 4 n)) in
      rw (
        le→ltb (length resp) 4 (omega arith),
        value,
        least,
        le→ltb n 4 (omega arith),
        cut,
        drop-append_at 4 word body (length-le_bytes 4 n),
        type_read t fields w count ws,
      )
