-- ===== src/DataTypes/Runs.antt =====
-- Examples of texts, truth values and words that are sent and read back.
use openstar_ads.Common.{◌≡◌, refl, [], ◌∷◌, true, false, some, length, arith, replicate}
use openstar_ads.Error.{ok, panic}
use openstar_ads.Symbol.{Text}
use openstar_ads.DataTypes.{
  AdsString16, converted, refused, longer_than_16_bytes, try_from_string, into_string, trim_end,
  string16_bytes, string16_from_bytes, from_bool, into_bool, from_words,
}
use openstar_ads.DataTypes.String16.{IsTrimmed, into_string-try_from, try_from_string_long}

-- `OK`, with a NUL at its end.
abbrev ok_text : Text
ok_text = b'O' ∷ b'K' ∷ 0 ∷ []

into_string-try_from_example :
    (s : AdsString16) × (try_from_string ok_text ≡ converted s)
    × (length (string16_bytes s) ≡ 17)
    × (string16_from_bytes (string16_bytes s) ≡ some s)
    × IsTrimmed ok_text (into_string s)
into_string-try_from_example =
    into_string-try_from ok_text (omega arith, (omega arith, (omega arith, tt))) (omega arith)

seventeen_refused : try_from_string (replicate 17 b'a') ≡ refused longer_than_16_bytes
seventeen_refused = try_from_string_long (replicate 17 b'a') (omega arith)

ok_trimmed : trim_end ok_text ≡ b'O' ∷ b'K' ∷ []
unfolding trim_end
ok_trimmed = refl

-- A letter beyond ASCII takes two bytes, each of which comes out as a letter of its own.
accent :
    into_string (record { inner = 195 ∷ 169 ∷ replicate 14 0; null_terminator = 0 })
    ≡ 195 ∷ 131 ∷ 194 ∷ 169 ∷ []
unfolding into_string trim_end openstar_ads.Symbol.Values.Utf16.utf8
accent = refl

truth_values :
    (into_bool (from_bool true) ≡ ok true)
    × (into_bool (from_bool false) ≡ ok false)
    × (into_bool (record { byte = 2 }) ≡ panic)
unfolding from_bool into_bool
truth_values = (refl, refl, refl)

two_words : from_words 1 2 ≡ 131073
unfolding from_words openstar_ads.Wire.le_value openstar_ads.Wire.le_bytes
two_words = refl
