-- ===== src/Symbol/Values/Primitive.antt =====
-- src/symbol/map.rs: `PrimitiveValue`, and the reading of the values that a `SymbolTypeMap` lists.
-- A signed number is the unsigned one of the same 64 bits, and a float the bits of its `f64`.
use openstar_ads.Common.{
  ℕ, zero, suc, ◌+◌, ◌-◌, ◌*◌, ◌/◌, ◌%◌, ◌^◌, List, [], ◌∷◌, Bool, not, Option, none, some, ltb,
  ◌==◌, if◌then◌else◌, length, take, drop, get_elem?,
}
use openstar_ads.Error.{Error, Result, ok, err, panic, ◌>>=◌}
use openstar_ads.Symbol.{Text, same_text}
use openstar_ads.Symbol.Fields.{sign_extend}
use openstar_ads.Symbol.Tree.Flat.{
  PrimitiveSymbolType, PrimitiveSymbolDescriptor, SymbolTypeMap, int_value, dint_value, real_value,
  lreal_value, sint_value, usint_value, uint_value, udint_value, lint_value, ulint_value,
  real80_value, bool_value, string_value, wstring_value, void_value, time_struct,
}
use openstar_ads.Symbol.Values.{read_from_prefix, slice_to, read_words}
use openstar_ads.Symbol.Values.Utf16.{from_utf16_lossy}

pub data PrimitiveValue (Date : Type 0) : Type 0 where
  int uint float : ℕ → PrimitiveValue Date
  string : Text → PrimitiveValue Date
  timestamp : Date → PrimitiveValue Date
  bool : Bool → PrimitiveValue Date
  malformed : PrimitiveValue Date
  void : List ℕ → PrimitiveValue Date

-- `SymbolMap`, an `IndexMap`.
abbrev pub SymbolMap : Type 0 → Type 0
SymbolMap Date = List (Text × PrimitiveValue Date)

-- `f32 as f64`, on the bits. A number below the normal ones is doubled until it is normal.
abbrev pub normalise : ℕ → ℕ → ℕ → ℕ
normalise zero e frac = e * 2 ^ 52 + (frac - 2 ^ 23) * 2 ^ 29
normalise (suc steps) e frac =
    let doubled = normalise steps (e - 1) (2 * frac) in
    if ltb frac (2 ^ 23) then doubled else e * 2 ^ 52 + (frac - 2 ^ 23) * 2 ^ 29

unfoldable pub f32_to_f64 : ℕ → ℕ
f32_to_f64 n =
    let sign = (n / 2 ^ 31) * 2 ^ 63 in
    let e = (n / 2 ^ 23) % 2 ^ 8 in
    let frac = n % 2 ^ 23 in
    if e == 255
    then sign + 2047 * 2 ^ 52 + frac * 2 ^ 29
    else if e == 0
    then if frac == 0 then sign else sign + normalise 23 897 frac
    else sign + (e + 896) * 2 ^ 52 + frac * 2 ^ 29

-- `&bytes[offset..]`, which panics where the bytes are too few.
unfoldable pub slice_from : ℕ → List ℕ → Result (List ℕ)
slice_from offset bytes = if ltb (length bytes) offset then panic else ok (drop offset bytes)

-- `offsets[i]`, in an array of eight.
abbrev pub nth_offset : ℕ → List ℕ → Result ℕ
nth_offset i offsets = elim (get_elem? offsets i) [ some o ↦ ok o | none ↦ panic ]

-- `SizeError`, which is only told from a value.
abbrev pub size_error : Error
size_error = Error.other "size"

abbrev pub or_size_error : Option ℕ → Result ℕ
or_size_error none = err size_error
or_size_error (some n) = ok n

-- `u16::read_from_prefix(&bytes[offsets[i]..])?`.
unfoldable pub u16_at : ℕ → List ℕ → List ℕ → Result ℕ
unfolding slice_from read_from_prefix
u16_at i offsets bytes = do
  offset ← nth_offset i offsets
  rest ← slice_from offset bytes
  or_size_error (read_from_prefix 2 rest)

module _ {Date : Type 0} where
  abbrev pub or_bad : (ℕ → PrimitiveValue Date) → Option ℕ → PrimitiveValue Date
  or_bad wrap none = PrimitiveValue.malformed
  or_bad wrap (some n) = wrap n

  abbrev pub as_number : ℕ → (ℕ → PrimitiveValue Date) → List ℕ → Result (PrimitiveValue Date)
  as_number k wrap bytes = ok (or_bad wrap (read_from_prefix k bytes))

  -- `PrimitiveValue::Int` of a number of `k` bytes.
  abbrev pub signed : ℕ → List ℕ → Result (PrimitiveValue Date)
  signed k bytes = as_number k (λ n. PrimitiveValue.int (sign_extend (8 * k) n)) bytes

  abbrev pub truth : ℕ → PrimitiveValue Date
  truth n = PrimitiveValue.bool (not (n == 0))

  unfoldable pub wide_text : ℕ → List ℕ → Result (PrimitiveValue Date)
  wide_text size bytes = if not (size % 2 == 0) then ok PrimitiveValue.malformed else (do
    words ← read_words (size / 2) bytes
    ok (PrimitiveValue.string (from_utf16_lossy words)))

  abbrev pub or_no_date : Result (Option Date) → Result (PrimitiveValue Date)
  or_no_date (ok (some date)) = ok (PrimitiveValue.timestamp date)
  or_no_date (ok none) = ok PrimitiveValue.malformed
  or_no_date (err e) = ok PrimitiveValue.malformed
  or_no_date panic = panic

  -- `IndexMap::insert`.
  unfoldable pub insert_primitive : Text → PrimitiveValue Date → SymbolMap Date → SymbolMap Date
  insert_primitive path v [] = (path, v) ∷ []
  insert_primitive path v ((p, w) ∷ m) =
      let rest = insert_primitive path v m in if same_text p path then (p, v) ∷ m else (p, w) ∷ rest

  -- `PrimitiveSymbolDescriptor::datetime_from_bytes`.
  unfoldable pub datetime_from_bytes :
      (ℕ → ℕ → ℕ → ℕ → ℕ → ℕ → ℕ → Option Date) → List ℕ → List ℕ → Result (Option Date)
  unfolding u16_at
  datetime_from_bytes datetime offsets bytes = do
    year ← u16_at 0 offsets bytes
    month ← u16_at 1 offsets bytes
    day ← u16_at 3 offsets bytes
    hour ← u16_at 4 offsets bytes
    minute ← u16_at 5 offsets bytes
    second ← u16_at 6 offsets bytes
    milliseconds ← u16_at 7 offsets bytes
    ok (datetime year month day hour minute second milliseconds)

  module _ (lossy : List ℕ → Text) (to_f64 : List ℕ → ℕ)
      (datetime : ℕ → ℕ → ℕ → ℕ → ℕ → ℕ → ℕ → Option Date) where
    -- The bytes from the offset on, read as the type says.
    unfoldable pub read_as : PrimitiveSymbolType → List ℕ → Result (PrimitiveValue Date)
    unfolding datetime_from_bytes f32_to_f64 wide_text
    read_as (time_struct offsets) bytes = or_no_date (datetime_from_bytes datetime offsets bytes)
    read_as real_value bytes = as_number 4 (λ n. PrimitiveValue.float (f32_to_f64 n)) bytes
    read_as lreal_value bytes = as_number 8 PrimitiveValue.float bytes
    read_as sint_value bytes = signed 1 bytes
    read_as int_value bytes = signed 2 bytes
    read_as dint_value bytes = signed 4 bytes
    read_as lint_value bytes = as_number 8 PrimitiveValue.int bytes
    read_as usint_value bytes = as_number 1 PrimitiveValue.uint bytes
    read_as uint_value bytes = as_number 2 PrimitiveValue.uint bytes
    read_as udint_value bytes = as_number 4 PrimitiveValue.uint bytes
    read_as ulint_value bytes = as_number 8 PrimitiveValue.uint bytes
    read_as (string_value size) bytes = do
      raw ← slice_to size bytes
      ok (PrimitiveValue.string (lossy raw))
    read_as bool_value bytes = as_number 1 truth bytes
    read_as (wstring_value size) bytes = wide_text size bytes
    read_as real80_value bytes =
        if ltb (length bytes) 10
        then ok PrimitiveValue.malformed
        else ok (PrimitiveValue.float (to_f64 (take 10 bytes)))
    read_as (void_value size) bytes = do raw ← slice_to size bytes; ok (PrimitiveValue.void raw)

    -- `PrimitiveSymbolDescriptor::read_from_bytes`.
    unfoldable pub read_from_bytes :
        PrimitiveSymbolDescriptor → List ℕ → Result (PrimitiveValue Date)
    unfolding slice_from read_as
    read_from_bytes d bytes = do
      accessible_data ← slice_from d.root_symbol_offset bytes
      read_as d.symbol_type accessible_data

    -- The loop of `SymbolMap::from_bytes`.
    unfoldable pub read_entries : List ℕ → SymbolTypeMap → SymbolMap Date → Result (SymbolMap Date)
    unfolding read_from_bytes insert_primitive
    read_entries bytes [] map = ok map
    read_entries bytes ((path, d) ∷ entries) map = do
      v ← read_from_bytes d bytes
      read_entries bytes entries (insert_primitive path v map)

    -- `SymbolMap::from_bytes`.
    unfoldable pub from_bytes : List ℕ → SymbolTypeMap → Result (SymbolMap Date)
    unfolding read_entries
    from_bytes bytes symbol_type_map = read_entries bytes symbol_type_map []
