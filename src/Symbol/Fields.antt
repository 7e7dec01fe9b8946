-- ===== src/Symbol/Fields.antt =====
-- src/symbol/type.rs: the parts that entries of symbols, types and methods are made of.
use openstar_ads.Common.{
  ℕ, zero, suc, ◌+◌, ◌-◌, ◌*◌, ◌/◌, ◌%◌, ◌^◌, String, List, [], ◌∷◌, ◌++◌, Bool, true, false, ◌==◌,
  ltb, leb, if◌then◌else◌, take, drop, min,
}
use openstar_ads.Error.{Error, Result, ok, err, ◌>>=◌, ◌>>◌, assert}
use openstar_ads.Wire.{le_value, read_exact, read_uint, split_at}
use openstar_ads.Symbol.{Text, Attribute, EnumInfo}

-- `for _ in 0..count { list.push(item?) }`, where each item moves the slice on.
unfoldable pub times {ℓ} :
    {A : Type ℓ} → (List ℕ → Result (A × List ℕ)) → ℕ → List ℕ → Result (List A × List ℕ)
times item zero ptr = ok ([], ptr)
times item (suc count) ptr = do
  (a, ptr) ← item ptr
  (rest, ptr) ← times item count ptr
  ok (a ∷ rest, ptr)

-- `n` in `k` lower-case hexadecimal digits, as `format!` writes it with padding.
abbrev pub hex_digit : ℕ → ℕ
hex_digit d = if ltb d 10 then 48 + d else 87 + d

abbrev pub hex : ℕ → ℕ → Text
hex zero n = []
hex (suc k) n = hex k (n / 16) ++ (hex_digit (n % 16) ∷ [])

-- The bytes of `g` in the order they stand, two digits each.
abbrev pub hex_bytes : List ℕ → Text
hex_bytes [] = []
hex_bytes (b ∷ bs) = hex 2 b ++ hex_bytes bs

abbrev pub dash : Text → Text
dash t = 45 ∷ t

unfoldable pub parse_guid : List ℕ → Result (Text × List ℕ)
parse_guid ptr = do
  (g, ptr) ← read_exact "parsing GUID" 16 ptr
  ok (
    hex 8 (le_value (take 4 g))
        ++ dash (
            hex 4 (le_value (take 2 (drop 4 g)))
            ++ dash (
                hex 4 (le_value (take 2 (drop 6 g)))
                ++ dash (hex_bytes (take 2 (drop 8 g)) ++ dash (hex_bytes (drop 10 g))))),
    ptr,
  )

unfoldable pub skip_copy_mask : ℕ → List ℕ → Result (Unit {0} × List ℕ)
skip_copy_mask size ptr = do (mask, ptr) ← read_exact "skipping copy mask" size ptr; ok (tt, ptr)

-- `n as i64`, for an `n` of `bits` bits that is read as signed.
abbrev pub sign_extend : ℕ → ℕ → ℕ
sign_extend bits n = if ltb n (2 ^ (bits - 1)) then n else n + (2 ^ 64 - 2 ^ bits)

-- A magnitude as an `i64`: a cast from a float saturates.
abbrev pub saturate : Bool → ℕ → ℕ
saturate false mag = min mag (2 ^ 63 - 1)
saturate true mag = (2 ^ 64 - min mag (2 ^ 63)) % 2 ^ 64

-- The whole part of `mant * 2 ^ (e - scale)`.
abbrev pub scaled : ℕ → ℕ → ℕ → ℕ
scaled mant e scale = if leb scale e then mant * 2 ^ (e - scale) else mant / 2 ^ (scale - e)

-- `x as i64` for an IEEE float of `mb` mantissa and `eb` exponent bits, whose bits are `n`.
abbrev pub float_as_i64 : ℕ → ℕ → ℕ → ℕ
float_as_i64 mb eb n =
    let frac = n % 2 ^ mb in
    let e = (n / 2 ^ mb) % 2 ^ eb in
    let negative = (n / 2 ^ (mb + eb)) == 1 in
    if e == 2 ^ eb - 1
    then if frac == 0 then saturate negative (2 ^ 64) else 0
    else if e == 0
    then 0
    else saturate negative (scaled (2 ^ mb + frac) e (2 ^ (eb - 1) - 1 + mb))

-- `raw[..n]`, read as a number.
abbrev pub prefix : ℕ → List ℕ → Result ℕ
prefix n raw = do (head, rest) ← split_at n raw; ok (le_value head)

abbrev pub signed_prefix : ℕ → List ℕ → Result ℕ
signed_prefix n raw = do v ← prefix n raw; ok (sign_extend (8 * n) v)

-- The value of an enum variant of no known base type.
unfoldable pub sized_value : ℕ → List ℕ → Result ℕ
sized_value size raw =
    if size == 1
    then prefix 1 raw
    else if size == 2
    then signed_prefix 2 raw
    else if size == 4
    then signed_prefix 4 raw
    else if size == 8
    then prefix 8 raw
    else err (Error.other "Unexpected enum info value")

abbrev pub f32_prefix : List ℕ → Result ℕ
f32_prefix raw = do v ← prefix 4 raw; ok (float_as_i64 23 8 v)

abbrev pub f64_prefix : List ℕ → Result ℕ
f64_prefix raw = do v ← prefix 8 raw; ok (float_as_i64 52 11 v)

unfoldable pub enum_value : ℕ → ℕ → List ℕ → Result ℕ
unfolding sized_value
enum_value size base_type raw =
    if base_type == 2
    then signed_prefix 2 raw
    else if base_type == 3
    then signed_prefix 4 raw
    else if base_type == 4
    then f32_prefix raw
    else if base_type == 5
    then f64_prefix raw
    else if base_type == 16
    then signed_prefix 1 raw
    else if base_type == 17
    then prefix 1 raw
    else if base_type == 18
    then prefix 2 raw
    else if base_type == 19
    then prefix 4 raw
    else if base_type == 20
    then prefix 8 raw
    else if base_type == 21
    then prefix 8 raw
    else sized_value size raw

-- `from_utf8_lossy`, on the bytes of a text.
module _ (lossy : List ℕ → Text) where
  -- `ptr.read_exact(&mut buf[..len + 1])` and the text before the final byte, for a buffer of `cap`
  -- bytes. The slice of the buffer panics where it is too short.
  unfoldable pub read_text : ℕ → String → ℕ → List ℕ → Result (Text × List ℕ)
  read_text cap ctx len ptr = do
    assert (leb (len + 1) cap)
    (raw, ptr) ← read_exact ctx (len + 1) ptr
    ok (lossy (take len raw), ptr)

  unfoldable pub attribute : List ℕ → Result (Attribute × List ℕ)
  unfolding read_text
  attribute ptr = do
    let ctx : String = "parsing attributes"
    (name_len, ptr) ← read_uint ctx 1 ptr
    (value_len, ptr) ← read_uint ctx 1 ptr
    (name, ptr) ← read_text 256 ctx name_len ptr
    (value, ptr) ← read_text 256 ctx value_len ptr
    ok (record { name = name; value = value }, ptr)

  unfoldable pub parse_attributes : List ℕ → Result (List Attribute × List ℕ)
  unfolding times
  parse_attributes ptr = do
    (count, ptr) ← read_uint "parsing attributes" 2 ptr
    times attribute count ptr

  unfoldable pub enum_info : ℕ → ℕ → List ℕ → Result (EnumInfo × List ℕ)
  unfolding enum_value read_text
  enum_info size base_type ptr = do
    let ctx : String = "parsing enum infos"
    (name_len, ptr) ← read_uint ctx 1 ptr
    (name, ptr) ← read_text 256 ctx name_len ptr
    (raw, ptr) ← read_exact ctx size ptr
    value ← enum_value size base_type raw
    ok (record { name = name; value = value }, ptr)

  unfoldable pub parse_enum_infos : ℕ → ℕ → List ℕ → Result (List EnumInfo × List ℕ)
  unfolding times
  parse_enum_infos size base_type ptr = do
    (count, ptr) ← read_uint "parsing enum infos" 2 ptr
    times (enum_info size base_type) count ptr
