-- ===== src/NetId/Parse.antt =====
-- src/core/netid.rs: reading and printing of NetIDs and addresses.
use openstar_ads.Common.{
  ℕ, ◌<◌, ◌≡◌, ◌≢◌, refl, List, [], ◌∷◌, ◌++◌, if◌then◌else◌, ◌==◌, length, All, arith, map, ap,
  ◌⊎◌, inl, inr,
}
use openstar_ads.Wire.{IsByte}
use openstar_ads.NetId.{AmsNetId, AmsAddr, IsNetId, IsAddr}
use openstar_ads.NetId.Decimal.{
  IntErrorKind, Parsed, good, bad, ◌>>=◌, map_bad, parse_uint, print, parse_uint-print, IsDigit,
  digits-IsDigit,
}
use openstar_ads.NetId.Split.{split, join, Avoids, split-join, split-append, split_piece, All-join}

-- `ParseAmsNetIdError`.
pub data ParseAmsNetIdError : Type 0 where
  parse_byte : IntErrorKind → ParseAmsNetIdError
  not_6_bytes : ParseAmsNetIdError

-- The loop of `AmsNetId::from_str`, which stops at the first piece that is no byte.
unfoldable pub parse_items : List (List ℕ) → Parsed ParseAmsNetIdError (List ℕ)
parse_items [] = good []
parse_items (item ∷ items) = do
  byte ← map_bad ParseAmsNetIdError.parse_byte (parse_uint 255 item)
  bytes ← parse_items items
  good (byte ∷ bytes)

-- `AmsNetId::from_str`.
unfoldable pub netid_from_str : List ℕ → Parsed ParseAmsNetIdError AmsNetId
netid_from_str s = do
  bytes ← parse_items (split b'.' s)
  if length bytes == 6 then good (record { octets = bytes }) else bad ParseAmsNetIdError.not_6_bytes

-- `Display for AmsNetId`.
unfoldable pub netid_fmt : AmsNetId → List ℕ
netid_fmt n = join b'.' (map print n.octets)

-- `ParseAmsAddrError`.
pub data ParseAmsAddrError : Type 0 where
  invalid_input : List ℕ → ParseAmsAddrError
  parse_ams_netid : ParseAmsNetIdError → ParseAmsAddrError
  invalid_port_number : IntErrorKind → ParseAmsAddrError

-- `AmsAddr::from_str` on the pieces of the text: `collect_tuple` takes exactly two.
unfoldable pub addr_from_pieces : List ℕ → List (List ℕ) → Parsed ParseAmsAddrError AmsAddr
addr_from_pieces s (addr ∷ port ∷ []) = do
  netid ← map_bad ParseAmsAddrError.parse_ams_netid (netid_from_str addr)
  port ← map_bad ParseAmsAddrError.invalid_port_number (parse_uint 65535 port)
  good (record { netid = netid; port = port })
addr_from_pieces s (addr ∷ port ∷ more ∷ rest) = bad (ParseAmsAddrError.invalid_input s)
addr_from_pieces s (addr ∷ []) = bad (ParseAmsAddrError.invalid_input s)
addr_from_pieces s [] = bad (ParseAmsAddrError.invalid_input s)

-- `AmsAddr::from_str`.
unfoldable pub addr_from_str : List ℕ → Parsed ParseAmsAddrError AmsAddr
unfolding addr_from_pieces
addr_from_str s = addr_from_pieces s (split b':' s)

-- `Display for AmsAddr`.
unfoldable pub addr_fmt : AmsAddr → List ℕ
addr_fmt a = netid_fmt a.netid ++ (b':' ∷ print a.port)

parse_items-print : (bs : List ℕ) → All IsByte bs → parse_items (map print bs) ≡ good bs
unfolding parse_items
parse_items-print [] h = refl
parse_items-print (b ∷ bs) h =
    rw (parse_uint-print 255 b (omega arith) (omega arith), parse_items-print bs h.1)

-- No separator is a digit.
digits_avoid : (sep : ℕ) (xs : List ℕ) → sep < b'0' ⊎ b'9' < sep → All IsDigit xs → Avoids sep xs
digits_avoid sep [] h d = tt
digits_avoid sep (x ∷ xs) h d = (omega arith, digits_avoid sep xs h d.1)

prints_avoid : (bs : List ℕ) → All (Avoids b'.') (map print bs)
prints_avoid [] = tt
prints_avoid (b ∷ bs) =
    (digits_avoid b'.' (print b) (inl (omega arith)) (digits-IsDigit 4 b), prints_avoid bs)

pieces_of : (bs : List ℕ) → bs ≢ [] → split b'.' (join b'.' (map print bs)) ≡ map print bs
pieces_of [] h = absurd (h refl)
pieces_of (b ∷ bs) h = split-join b'.' (print b) (map print bs) (prints_avoid (b ∷ bs))

netid_round_trip : (n : AmsNetId) → IsNetId n → netid_from_str (netid_fmt n) ≡ good n
unfolding netid_from_str netid_fmt
netid_round_trip n w = rw (
  pieces_of n.octets (λ e. absurd (omega (arith, w.six, ap length e))),
  parse_items-print n.octets w.all_bytes,
  w.six,
)

colon_free : (n : AmsNetId) → Avoids b':' (netid_fmt n)
unfolding netid_fmt
colon_free n = All-join (λ c. c ≢ b':') b'.' (map print n.octets) (omega arith) (prints n.octets)
  where
    prints : (bs : List ℕ) → All (Avoids b':') (map print bs)
    prints [] = tt
    prints (b ∷ bs) =
        (digits_avoid b':' (print b) (inr (omega arith)) (digits-IsDigit 4 b), prints bs)

-- A printed address is read back as it was, its NetID and its port.
pub addr_from_str-addr_fmt : (a : AmsAddr) → IsAddr a → addr_from_str (addr_fmt a) ≡ good a
unfolding addr_from_str addr_fmt
addr_from_str-addr_fmt a w = rw (
  split-append b':' (netid_fmt a.netid) (print a.port) (colon_free a.netid),
  split_piece b':' (print a.port)
      (digits_avoid b':' (print a.port) (inr (omega arith)) (digits-IsDigit 4 a.port)),
  netid_round_trip a.netid w.netid_fits,
  parse_uint-print 65535 a.port (omega arith) (omega arith),
)
