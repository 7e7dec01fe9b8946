-- ===== src/Symbol/MethodDecoded.antt =====
-- The decoder of RPC methods of src/symbol/type.rs inverts their layout.
use openstar_ads.Common.{ℕ, ◌≡◌, refl, ◌∙◌, String, List, length, map, arith}
use openstar_ads.Error.{ok}
use openstar_ads.Wire.Laws.{read_uint_step, read_exact_step}
use openstar_ads.Symbol.{Text, has_flag, rpc_method_attribute_flag, rpc_param_attribute_flag}
use openstar_ads.Symbol.Methods.{
  entry, parse_rpc_method_parameter, parse_rpc_method, parse_method_infos,
}
use openstar_ads.Symbol.Format.{read_text_step}
use openstar_ads.Symbol.Parts.{entry-append, times-encode_sized, optional_attributes}
use openstar_ads.Symbol.MethodLayout.{
  ParameterEntry, MethodEntry, encode_parameter, encode_method, encode_methods, parameter_of,
  method_of, IsParameter, IsMethod, IsMethods,
}

module _ (lossy : List ℕ → Text) where
  parse_rpc_method_parameter-encode_parameter :
      (p : ParameterEntry)
      → IsParameter lossy p
      → parse_rpc_method_parameter lossy (encode_parameter p) ≡ ok (parameter_of p)
  unfolding parse_rpc_method_parameter encode_parameter
  parse_rpc_method_parameter-encode_parameter p w =
      let ctx : String = "parsing RPC method parameter" in
      read_uint_step ctx 4 p.size _ _ w.size_fits
      ∙ read_uint_step ctx 4 p.align_size _ _ w.align_size_fits
      ∙ read_uint_step ctx 4 p.ads_data_type _ _ w.data_type_fits
      ∙ read_uint_step ctx 4 p.flags _ _ w.flags_fit
      ∙ read_uint_step ctx 4 p.reserved _ _ w.reserved_fits
      ∙ read_exact_step ctx 16 p.type_guid _ _ w.guid_fits
      ∙ read_uint_step ctx 2 p.length_is _ _ w.length_is_fits
      ∙ read_uint_step ctx 2 (length p.name) _ _ (omega (arith, w.name_fits.room))
      ∙ read_uint_step ctx 2 (length p.type_name) _ _ (omega (arith, w.type_name_fits.room))
      ∙ read_uint_step ctx 2 (length p.comment) _ _ (omega (arith, w.comment_fits.room))
      ∙ read_text_step lossy 2048 ctx p.name _ _ w.name_fits.room w.name_fits.utf8
      ∙ read_text_step lossy 2048 ctx p.type_name _ _ w.type_name_fits.room w.type_name_fits.utf8
      ∙ read_text_step lossy 2048 ctx p.comment _ _ w.comment_fits.room w.comment_fits.utf8
      ∙ rw
          (optional_attributes lossy (has_flag p.flags rpc_param_attribute_flag) p.attributes p.tail
            w.attributes_flag w.attributes_fit)
          refl

  parse_rpc_method-encode_method :
      (m : MethodEntry)
      → IsMethod lossy m
      → parse_rpc_method lossy (encode_method m) ≡ ok (method_of m)
  unfolding parse_rpc_method encode_method
  parse_rpc_method-encode_method m w =
      let ctx : String = "parsing RPC method" in
      let what : String = "invalid parameter entry length" in
      let part = parse_rpc_method_parameter lossy in
      read_uint_step ctx 4 m.version _ _ w.version_fits
      ∙ read_uint_step ctx 4 m.v_table_index _ _ w.index_fits
      ∙ read_uint_step ctx 4 m.return_size _ _ w.size_fits
      ∙ read_uint_step ctx 4 m.return_align_size _ _ w.align_size_fits
      ∙ read_uint_step ctx 4 m.reserved _ _ w.reserved_fits
      ∙ read_exact_step ctx 16 m.return_guid _ _ w.guid_fits
      ∙ read_uint_step ctx 4 m.return_ads_data_type _ _ w.data_type_fits
      ∙ read_uint_step ctx 4 m.flags _ _ w.flags_fit
      ∙ read_uint_step ctx 2 (length m.name) _ _ (omega (arith, w.name_fits.room))
      ∙ read_uint_step ctx 2 (length m.return_type) _ _ (omega (arith, w.return_type_fits.room))
      ∙ read_uint_step ctx 2 (length m.comment) _ _ (omega (arith, w.comment_fits.room))
      ∙ read_uint_step ctx 2 (length m.parameters) _ _ w.count_fits
      ∙ read_text_step lossy 2048 ctx m.name _ _ w.name_fits.room w.name_fits.utf8
      ∙ read_text_step lossy 2048 ctx m.return_type _ _ w.return_type_fits.room
          w.return_type_fits.utf8
      ∙ read_text_step lossy 2048 ctx m.comment _ _ w.comment_fits.room w.comment_fits.utf8
      ∙ rw
          (
            times-encode_sized (IsParameter lossy) (entry ctx what part) encode_parameter
                parameter_of m.parameters _
                (λ p more wp.
                  entry-append ctx what part (encode_parameter p) more (parameter_of p) wp.body_fits
                    (parse_rpc_method_parameter-encode_parameter p wp))
                w.parameters_fit,
            optional_attributes lossy (has_flag m.flags rpc_method_attribute_flag) m.attributes
                m.tail w.attributes_flag w.attributes_fit,
          )
          refl

  -- The methods of a type are read back from their encoding.
  pub parse_method_infos-encode_methods :
      (methods : List MethodEntry) (rest : List ℕ)
      → IsMethods lossy methods
      → parse_method_infos lossy (encode_methods methods rest) ≡ ok (map method_of methods, rest)
  unfolding parse_method_infos encode_methods
  parse_method_infos-encode_methods methods rest w =
      let ctx : String = "parsing method infos" in
      let what : String = "invalid method entry length" in
      read_uint_step ctx 2 (length methods) _ _ w.count_fits
      ∙ times-encode_sized (IsMethod lossy) (entry ctx what (parse_rpc_method lossy)) encode_method
          method_of methods rest
          (λ m more wm.
            entry-append ctx what (parse_rpc_method lossy) (encode_method m) more (method_of m)
              wm.body_fits (parse_rpc_method-encode_method m wm))
          w.each
