-- ===== src/Symbol/Methods.antt =====
-- src/symbol/type.rs: RPC methods, and what the flags of a type or a field say is there.
use openstar_ads.Common.{
  ℕ, ◌-◌, String, List, [], Bool, true, false, Option, none, some, ltb, if◌then◌else◌,
}
use openstar_ads.Error.{Error, Result, ok, ◌>>=◌, ◌>>◌, guard}
use openstar_ads.Wire.{read_exact, read_uint, split_at}
use openstar_ads.Symbol.{
  Text, Attribute, RpcMethod, RpcMethodParameter, PlcType, has_flag, type_flag_guid,
  type_flag_copy_mask, type_flag_method_infos, type_flag_attributes, type_flag_enum_infos,
  rpc_method_attribute_flag, rpc_param_attribute_flag,
}
use openstar_ads.Symbol.Fields.{
  times, parse_guid, skip_copy_mask, read_text, parse_attributes, parse_enum_infos,
}

-- A part that is there if a flag is set.
unfoldable pub optional {ℓ} :
    {A : Type ℓ} → Bool → (List ℕ → Result (A × List ℕ)) → List ℕ → Result (Option A × List ℕ)
optional true part ptr = do (a, ptr) ← part ptr; ok (some a, ptr)
optional false part ptr = ok (none, ptr)

-- An attribute list that is there if a flag is set, and empty otherwise.
abbrev pub or_empty : Option (List Attribute) → List Attribute
or_empty none = []
or_empty (some list) = list

-- An entry that begins with its own length, and its parse. A length below its own four bytes is
-- refused.
unfoldable pub entry {ℓ} :
    {A : Type ℓ} → String → String → (List ℕ → Result A) → List ℕ → Result (A × List ℕ)
entry ctx what part ptr = do
  (entry_len, ptr) ← read_uint ctx 4 ptr
  guard (if ltb entry_len 4 then false else true) (Error.reply ctx what entry_len)
  (data_part, rest) ← split_at (entry_len - 4) ptr
  a ← part data_part
  ok (a, rest)

module _ (lossy : List ℕ → Text) where
  unfoldable pub parse_rpc_method_parameter : List ℕ → Result RpcMethodParameter
  unfolding optional
  parse_rpc_method_parameter ptr = do
    let ctx : String = "parsing RPC method parameter"
    (size, ptr) ← read_uint ctx 4 ptr
    (align_size, ptr) ← read_uint ctx 4 ptr
    (ads_data_type, ptr) ← read_uint ctx 4 ptr
    (flags, ptr) ← read_uint ctx 4 ptr
    (reserved, ptr) ← read_uint ctx 4 ptr
    (guid_bytes, ptr) ← read_exact ctx 16 ptr
    (length_is_param_index, ptr) ← read_uint ctx 2 ptr
    (name_len, ptr) ← read_uint ctx 2 ptr
    (type_len, ptr) ← read_uint ctx 2 ptr
    (comment_len, ptr) ← read_uint ctx 2 ptr
    (name, ptr) ← read_text lossy 2048 ctx name_len ptr
    (typ, ptr) ← read_text lossy 2048 ctx type_len ptr
    (comment, ptr) ← read_text lossy 2048 ctx comment_len ptr
    (attributes, ptr) ←
        optional (has_flag flags rpc_param_attribute_flag) (parse_attributes lossy) ptr
    ok (record {
      name = name;
      typ = typ;
      size = size;
      flags = flags;
      comment = comment;
      attributes = or_empty attributes;
    })

  unfoldable pub parse_rpc_method : List ℕ → Result RpcMethod
  unfolding times entry optional
  parse_rpc_method ptr = do
    let ctx : String = "parsing RPC method"
    (version, ptr) ← read_uint ctx 4 ptr
    (v_table_index, ptr) ← read_uint ctx 4 ptr
    (return_size, ptr) ← read_uint ctx 4 ptr
    (return_align_size, ptr) ← read_uint ctx 4 ptr
    (reserved, ptr) ← read_uint ctx 4 ptr
    (guid_bytes, ptr) ← read_exact ctx 16 ptr
    (return_ads_data_type, ptr) ← read_uint ctx 4 ptr
    (flags, ptr) ← read_uint ctx 4 ptr
    (name_len, ptr) ← read_uint ctx 2 ptr
    (return_type_len, ptr) ← read_uint ctx 2 ptr
    (comment_len, ptr) ← read_uint ctx 2 ptr
    (param_count, ptr) ← read_uint ctx 2 ptr
    (name, ptr) ← read_text lossy 2048 ctx name_len ptr
    (return_type, ptr) ← read_text lossy 2048 ctx return_type_len ptr
    (comment, ptr) ← read_text lossy 2048 ctx comment_len ptr
    (parameters, ptr) ←
        times (entry ctx "invalid parameter entry length" parse_rpc_method_parameter) param_count
          ptr
    (attributes, ptr) ←
        optional (has_flag flags rpc_method_attribute_flag) (parse_attributes lossy) ptr
    ok (record {
      name = name;
      return_type = return_type;
      return_size = return_size;
      comment = comment;
      parameters = parameters;
      attributes = or_empty attributes;
    })

  unfoldable pub parse_method_infos : List ℕ → Result (List RpcMethod × List ℕ)
  unfolding times entry
  parse_method_infos ptr = do
    let ctx : String = "parsing method infos"
    (count, ptr) ← read_uint ctx 2 ptr
    times (entry ctx "invalid method entry length" parse_rpc_method) count ptr

  unfoldable pub parse_type_flags : PlcType → List ℕ → Result (PlcType × List ℕ)
  unfolding optional
  parse_type_flags t ptr = do
    (guid, ptr) ← optional (has_flag t.flags type_flag_guid) parse_guid ptr
    (mask, ptr) ← optional (has_flag t.flags type_flag_copy_mask) (skip_copy_mask t.size) ptr
    (methods, ptr) ← optional (has_flag t.flags type_flag_method_infos) parse_method_infos ptr
    (attributes, ptr) ←
        optional (has_flag t.flags type_flag_attributes) (parse_attributes lossy) ptr
    (enums, ptr) ←
        optional (has_flag t.flags type_flag_enum_infos) (parse_enum_infos lossy t.size t.base_type)
          ptr
    ok (
      record t { guid = guid; methods = methods; attributes = attributes; enum_info = enums },
      ptr,
    )

  unfoldable pub parse_field_attributes : ℕ → ℕ → List ℕ → Result (Option (List Attribute) × List ℕ)
  unfolding optional
  parse_field_attributes flags size ptr = do
    (guid, ptr) ← optional (has_flag flags type_flag_guid) parse_guid ptr
    (mask, ptr) ← optional (has_flag flags type_flag_copy_mask) (skip_copy_mask size) ptr
    (methods, ptr) ← optional (has_flag flags type_flag_method_infos) parse_method_infos ptr
    optional (has_flag flags type_flag_attributes) (parse_attributes lossy) ptr
