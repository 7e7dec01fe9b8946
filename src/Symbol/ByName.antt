-- ===== src/Symbol/ByName.antt =====
-- src/symbol/type.rs: the decoder of a single type, which a client asks for by name.
use openstar_ads.Common.{ℕ, String, List, true, false, ltb, if◌then◌else◌, length, take, drop, min}
use openstar_ads.Error.{Error, Result, ok, err, ◌>>=◌, ◌>>◌, assert}
use openstar_ads.Wire.{le_value, read_uint}
use openstar_ads.Symbol.{Text, Field, PlcType}
use openstar_ads.Symbol.Fields.{times}
use openstar_ads.Symbol.Methods.{entry, parse_field_attributes, parse_type_flags}
use openstar_ads.Symbol.Decode.{Head, head, field_of, type_of}

module _ (lossy : List ℕ → Text) where
  -- The start of an entry that is asked for by name: three words, none of them checked.
  unfoldable pub named_head : List ℕ → Result (Head × List ℕ)
  unfolding head
  named_head ptr = do
    let ctx : String = "decoding type info by name"
    (version, ptr) ← read_uint ctx 4 ptr
    (hash, ptr) ← read_uint ctx 4 ptr
    (type_hash, ptr) ← read_uint ctx 4 ptr
    head lossy ctx ptr

  -- The nested `decode_entry` of `decode_type_info_by_name`, with a parent.
  unfoldable pub decode_field_by_name : List ℕ → Result Field
  unfolding named_head
  decode_field_by_name ptr = do
    (h, ptr) ← named_head ptr
    (attributes, ptr) ← parse_field_attributes lossy h.flags h.size ptr
    ok (field_of h attributes)

  -- The same without a parent.
  unfoldable pub decode_type_info_by_name : List ℕ → Result PlcType
  unfolding named_head times entry
  decode_type_info_by_name ptr = do
    (h, ptr) ← named_head ptr
    (fields, ptr) ←
        times
          (entry "decoding type info by name" "invalid sub-item entry length" decode_field_by_name)
          h.sub_items ptr
    (t, ptr) ← parse_type_flags lossy (type_of h fields) ptr
    ok t

  -- `get_type_info_by_name`, on the bytes of the reply.
  unfoldable pub type_info_reply : List ℕ → Result PlcType
  unfolding decode_type_info_by_name
  type_info_reply resp =
      if ltb (length resp) 4
      then err (Error.reply "get type info by name" "response too short" (length resp))
      else do
        assert (if ltb (min (le_value (take 4 resp)) (length resp)) 4 then false else true)
        decode_type_info_by_name (drop 4 (take (min (le_value (take 4 resp)) (length resp)) resp))
