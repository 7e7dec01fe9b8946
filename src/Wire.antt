-- ===== src/Wire.antt =====
-- Little-endian fields in a byte slice: the reads of `byteorder` and `zerocopy` that the library makes.
-- A slice is a list of numbers, each below 256.
pub mod Laws
use openstar_ads.Common.{
  ℕ, zero, suc, ◌+◌, ◌*◌, ◌/◌, ◌%◌, ◌<◌, String, List, [], ◌∷◌, ltb, if◌then◌else◌, length, take,
  drop,
}
use openstar_ads.Error.{Result, ok, err, panic, ◌>>=◌, eof}

abbrev pub IsByte : ℕ → Type 0
IsByte b = b < 256

-- `uN::from_le_bytes`.
unfoldable pub le_value : List ℕ → ℕ
le_value [] = 0
le_value (b ∷ bs) = b + 256 * le_value bs

-- `uN::to_le_bytes`, for `N = 8 * k`.
unfoldable pub le_bytes : ℕ → ℕ → List ℕ
le_bytes zero n = []
le_bytes (suc k) n = (n % 256) ∷ le_bytes k (n / 256)

-- `Read for &[u8]`: `read_exact` of `n` bytes, with the error's context.
unfoldable pub read_exact : String → ℕ → List ℕ → Result (List ℕ × List ℕ)
read_exact ctx n ptr = if ltb (length ptr) n then err (eof ctx) else ok (take n ptr, drop n ptr)

-- `read_u8`, `read_u16::<LE>`, ... : an unsigned number of `k` bytes.
unfoldable pub read_uint : String → ℕ → List ℕ → Result (ℕ × List ℕ)
read_uint ctx k ptr = do (raw, rest) ← read_exact ctx k ptr; ok (le_value raw, rest)

-- `slice::split_at`, which panics where the slice is too short.
unfoldable pub split_at : ℕ → List ℕ → Result (List ℕ × List ℕ)
split_at n ptr = if ltb (length ptr) n then panic else ok (take n ptr, drop n ptr)
