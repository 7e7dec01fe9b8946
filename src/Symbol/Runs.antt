-- ===== src/Symbol/Runs.antt =====
-- Examples of uploads.
use openstar_ads.Common.{ℕ, List, ◌++◌, ◌↔◌, refl, ◌≡◌, ◌≢◌, map, [], ◌∷◌, some, none}
use openstar_ads.Error.{ok, panic}
use openstar_ads.Symbol.Decode.{decode_symbol_info, decode_symbols, type_map}
use openstar_ads.Symbol.Format.{encode_entries, encode_sized}
use openstar_ads.Symbol.Layout.{encode_type, type_of_entry}
use openstar_ads.Wire.{le_bytes}
use openstar_ads.Symbol.Outcomes.{Decodes}
use openstar_ads.Symbol.Determined.{decode_symbols_iff}
use openstar_ads.Symbol.Upload.{decode_symbol_info-encode}
use openstar_ads.Symbol.Total.{decode_symbol_info-answers}
use openstar_ads.Symbol.Samples.{ascii, a_symbol, two_types}
use openstar_ads.Symbol.Samples.Fits.{a_symbol-IsEntry, s_type-IsTypeEntry, e_type-IsTypeEntry}

decode_symbol_info-encode_example :
    decode_symbol_info ascii
      (encode_entries (a_symbol ∷ []))
      (encode_sized (map encode_type two_types))
    ≡ some (ok (a_symbol.symbol ∷ [], type_map [] (map type_of_entry two_types)))
decode_symbol_info-encode_example =
    decode_symbol_info-encode ascii (a_symbol ∷ []) two_types (a_symbol-IsEntry, tt)
      (s_type-IsTypeEntry, (e_type-IsTypeEntry, tt))

decode_symbol_info-answers_example : decode_symbol_info ascii (1 ∷ 2 ∷ 3 ∷ []) (4 ∷ []) ≢ none
decode_symbol_info-answers_example = decode_symbol_info-answers ascii (1 ∷ 2 ∷ 3 ∷ []) (4 ∷ [])

-- A symbol, and a length that counts less than its own bytes.
abbrev bad_upload : List ℕ
bad_upload = encode_entries (a_symbol ∷ []) ++ (3 ∷ 0 ∷ 0 ∷ 0 ∷ [])

bad_upload_panics : decode_symbols ascii bad_upload ≡ some panic
unfolding decode_symbols openstar_ads.Symbol.Format.encode_body encode_sized le_bytes
    openstar_ads.Wire.read_uint openstar_ads.Wire.read_exact openstar_ads.Wire.le_value
    openstar_ads.Wire.split_at
bad_upload_panics = refl

decode_symbols_iff_example :
    (decode_symbols ascii bad_upload ≡ some panic) ↔ Decodes ascii bad_upload panic
decode_symbols_iff_example = decode_symbols_iff ascii bad_upload panic
