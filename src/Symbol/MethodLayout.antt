-- ===== src/Symbol/MethodLayout.antt =====
-- The layout of the RPC methods of a type: an encoder for them, after src/symbol/type.rs.
use openstar_ads.Common.{ℕ, ◌+◌, ◌^◌, ◌<◌, ◌≡◌, List, ◌++◌, Option, All, length, map}
use openstar_ads.Wire.{le_bytes}
use openstar_ads.Client.{is_some}
use openstar_ads.Symbol.{
  Text, Attribute, RpcMethod, RpcMethodParameter, has_flag, rpc_method_attribute_flag,
  rpc_param_attribute_flag,
}
use openstar_ads.Symbol.Methods.{or_empty}
use openstar_ads.Symbol.Format.{encode_text, encode_sized}
use openstar_ads.Symbol.Parts.{encode_optional, encode_attributes, IsOptional, IsText, IsAttributes}

-- A parameter, with the words that the decoder passes over.
pub record ParameterEntry : Type 0 where
  pub size : ℕ
  pub align_size : ℕ
  pub ads_data_type : ℕ
  pub flags : ℕ
  pub reserved : ℕ
  pub type_guid : List ℕ
  pub length_is : ℕ
  pub name : Text
  pub type_name : Text
  pub comment : Text
  pub attributes : Option (List Attribute)
  pub tail : List ℕ

unfoldable pub encode_parameter : ParameterEntry → List ℕ
encode_parameter p =
    le_bytes 4 p.size
    ++ (le_bytes 4 p.align_size
        ++ (le_bytes 4 p.ads_data_type
            ++ (le_bytes 4 p.flags
                ++ (le_bytes 4 p.reserved
                    ++ (p.type_guid
                        ++ (le_bytes 2 p.length_is
                            ++ (le_bytes 2 (length p.name)
                                ++ (le_bytes 2 (length p.type_name)
                                    ++ (le_bytes 2 (length p.comment)
                                        ++ encode_text p.name (
                                            encode_text p.type_name (
                                              encode_text p.comment (
                                                encode_optional encode_attributes p.attributes
                                                  p.tail))))))))))))

abbrev pub parameter_of : ParameterEntry → RpcMethodParameter
parameter_of p = record {
  name = p.name;
  typ = p.type_name;
  size = p.size;
  flags = p.flags;
  comment = p.comment;
  attributes = or_empty p.attributes;
}

-- A method, with the words that the decoder passes over.
pub record MethodEntry : Type 0 where
  pub version : ℕ
  pub v_table_index : ℕ
  pub return_size : ℕ
  pub return_align_size : ℕ
  pub reserved : ℕ
  pub return_guid : List ℕ
  pub return_ads_data_type : ℕ
  pub flags : ℕ
  pub name : Text
  pub return_type : Text
  pub comment : Text
  pub parameters : List ParameterEntry
  pub attributes : Option (List Attribute)
  pub tail : List ℕ

unfoldable pub encode_method : MethodEntry → List ℕ
unfolding encode_parameter encode_sized
encode_method m =
    le_bytes 4 m.version
    ++ (le_bytes 4 m.v_table_index
        ++ (le_bytes 4 m.return_size
            ++ (le_bytes 4 m.return_align_size
                ++ (le_bytes 4 m.reserved
                    ++ (m.return_guid
                        ++ (le_bytes 4 m.return_ads_data_type
                            ++ (le_bytes 4 m.flags
                                ++ (le_bytes 2 (length m.name)
                                    ++ (le_bytes 2 (length m.return_type)
                                        ++ (le_bytes 2 (length m.comment)
                                            ++ (le_bytes 2 (length m.parameters)
                                                ++ encode_text m.name (
                                                    encode_text m.return_type (
                                                      encode_text m.comment (
                                                        encode_sized
                                                          (map encode_parameter m.parameters)
                                                        ++ encode_optional encode_attributes
                                                            m.attributes m.tail))))))))))))))

abbrev pub method_of : MethodEntry → RpcMethod
method_of m = record {
  name = m.name;
  return_type = m.return_type;
  return_size = m.return_size;
  comment = m.comment;
  parameters = map parameter_of m.parameters;
  attributes = or_empty m.attributes;
}

unfoldable pub encode_methods : List MethodEntry → List ℕ → List ℕ
unfolding encode_method encode_sized
encode_methods methods rest =
    le_bytes 2 (length methods) ++ (encode_sized (map encode_method methods) ++ rest)

module _ (lossy : List ℕ → Text) where
  -- A parameter whose numbers and texts fit, and whose flags say if it has attributes.
  pub record IsParameter (p : ParameterEntry) : Type 0 where
    pub size_fits : p.size < 256 ^ 4
    pub align_size_fits : p.align_size < 256 ^ 4
    pub data_type_fits : p.ads_data_type < 256 ^ 4
    pub flags_fit : p.flags < 256 ^ 4
    pub reserved_fits : p.reserved < 256 ^ 4
    pub guid_fits : length p.type_guid ≡ 16
    pub length_is_fits : p.length_is < 256 ^ 2
    pub name_fits : IsText lossy 2048 p.name
    pub type_name_fits : IsText lossy 2048 p.type_name
    pub comment_fits : IsText lossy 2048 p.comment
    pub attributes_flag : has_flag p.flags rpc_param_attribute_flag ≡ is_some p.attributes
    pub attributes_fit : IsOptional (IsAttributes lossy) p.attributes
    pub body_fits : 4 + length (encode_parameter p) < 256 ^ 4

  -- A method whose numbers, texts and parameters fit, and whose flags say if it has attributes.
  pub record IsMethod (m : MethodEntry) : Type 0 where
    pub version_fits : m.version < 256 ^ 4
    pub index_fits : m.v_table_index < 256 ^ 4
    pub size_fits : m.return_size < 256 ^ 4
    pub align_size_fits : m.return_align_size < 256 ^ 4
    pub reserved_fits : m.reserved < 256 ^ 4
    pub guid_fits : length m.return_guid ≡ 16
    pub data_type_fits : m.return_ads_data_type < 256 ^ 4
    pub flags_fit : m.flags < 256 ^ 4
    pub name_fits : IsText lossy 2048 m.name
    pub return_type_fits : IsText lossy 2048 m.return_type
    pub comment_fits : IsText lossy 2048 m.comment
    pub count_fits : length m.parameters < 256 ^ 2
    pub parameters_fit : All IsParameter m.parameters
    pub attributes_flag : has_flag m.flags rpc_method_attribute_flag ≡ is_some m.attributes
    pub attributes_fit : IsOptional (IsAttributes lossy) m.attributes
    pub body_fits : 4 + length (encode_method m) < 256 ^ 4

  pub record IsMethods (methods : List MethodEntry) : Type 0 where
    pub count_fits : length methods < 256 ^ 2
    pub each : All IsMethod methods
