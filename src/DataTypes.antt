-- ===== src/DataTypes.antt =====
-- src/data_types and src/params.rs: the types that are sent and received as bytes. A type is the bytes
-- of its fields in order, little-endian; a signed number is the unsigned one of the same bits.
pub mod String16
mod Runs
use openstar_ads.Common.{
  ℕ, ◌+◌, ◌-◌, ◌*◌, ◌%◌, ◌^◌, List, [], ◌∷◌, ◌++◌, Bool, true, false, Option, none, some, ltb, leb,
  ◌==◌, if◌then◌else◌, length, take, drop, replicate,
}
use openstar_ads.Error.{Result, ok, err, panic, ◌>>=◌}
use openstar_ads.Wire.{le_value, le_bytes}
use openstar_ads.Symbol.{Text}
use openstar_ads.Symbol.Values.Utf16.{utf8}

-- `AdsBool`, and its conversions.
pub record AdsBool : Type 0 where
  pub byte : ℕ

unfoldable pub from_bool : Bool → AdsBool
from_bool true = record { byte = 1 }
from_bool false = record { byte = 0 }

unfoldable pub into_bool : AdsBool → Result Bool
into_bool value = if value.byte == 1 then ok true else (if value.byte == 0 then ok false else panic)

-- `AdsUdint` of two words, in the order of their bytes.
unfoldable pub from_words : ℕ → ℕ → ℕ
from_words low high = le_value (le_bytes 2 low ++ le_bytes 2 high)

-- `AdsString16`: sixteen bytes and a terminator.
pub record AdsString16 : Type 0 where
  pub inner : List ℕ
  pub null_terminator : ℕ

-- `AdsString16FromStringError` and `AdsString16CheckTerminatorError`.
pub data AdsString16FromStringError : Type 0 where
  longer_than_16_bytes : AdsString16FromStringError

pub data Converted (E A : Type 0) : Type 0 where
  converted : A → Converted E A
  refused : E → Converted E A

unfoldable pub try_from_string : Text → Converted AdsString16FromStringError AdsString16
try_from_string value =
    if ltb 16 (length value)
    then refused longer_than_16_bytes
    else converted
        (record { inner = value ++ replicate (16 - length value) 0; null_terminator = 0 })

-- `c as char` for each byte, collected into a text.
abbrev pub chars : List ℕ → Text
chars [] = []
chars (c ∷ cs) = utf8 c ++ chars cs

-- `trim_end_matches("\0")`.
abbrev pub trim_cons : ℕ → Text → Text
trim_cons c [] = if c == 0 then [] else c ∷ []
trim_cons c (d ∷ ds) = c ∷ d ∷ ds

unfoldable pub trim_end : Text → Text
trim_end [] = []
trim_end (c ∷ cs) = trim_cons c (trim_end cs)

unfoldable pub into_string : AdsString16 → Text
unfolding trim_end utf8
into_string val = trim_end (chars val.inner)

unfoldable pub check_terminator : AdsString16 → Converted ℕ (Unit {0})
check_terminator s = if s.null_terminator == 0 then converted tt else refused s.null_terminator

-- The bytes of an `AdsString16`, and `read_from_bytes`.
unfoldable pub string16_bytes : AdsString16 → List ℕ
string16_bytes s = s.inner ++ (s.null_terminator ∷ [])

unfoldable pub string16_from_bytes : List ℕ → Option AdsString16
string16_from_bytes bytes =
    if length bytes == 17
    then some (record { inner = take 16 bytes; null_terminator = le_value (drop 16 bytes) })
    else none

-- `AdsTimeStruct`.
pub record AdsTimeStruct : Type 0 where
  pub year : ℕ
  pub month : ℕ
  pub day_of_week : ℕ
  pub day : ℕ
  pub hour : ℕ
  pub minute : ℕ
  pub second : ℕ
  pub milliseconds : ℕ

abbrev pub nth_word : ℕ → List ℕ → ℕ
nth_word n bytes = le_value (take 2 (drop (2 * n) bytes))

unfoldable pub time_struct_from_bytes : List ℕ → Option AdsTimeStruct
time_struct_from_bytes bytes =
    if length bytes == 16
    then some (record {
      year = nth_word 0 bytes;
      month = nth_word 1 bytes;
      day_of_week = nth_word 2 bytes;
      day = nth_word 3 bytes;
      hour = nth_word 4 bytes;
      minute = nth_word 5 bytes;
      second = nth_word 6 bytes;
      milliseconds = nth_word 7 bytes;
    })
    else none

-- The date of a time structure, for what `chrono` makes of its parts.
unfoldable pub time_struct_date :
    {Date : Type 0} → (ℕ → ℕ → ℕ → ℕ → ℕ → ℕ → ℕ → Option Date) → AdsTimeStruct → Option Date
time_struct_date datetime value =
    datetime value.year value.month value.day value.hour value.minute value.second
      value.milliseconds

-- `AdsParams::into_data`: the bytes of the parameters, one after the other.
unfoldable pub into_data : List (List ℕ) → List ℕ
into_data [] = []
into_data (data_n ∷ rest) = data_n ++ into_data rest
