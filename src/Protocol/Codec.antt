-- ===== src/Protocol/Codec.antt =====
-- The header's codec, and the numbers of states and commands.
use openstar_ads.Common.{
  ℕ, ◌≡◌, refl, ap, ◌∙◌, List, [], ◌++◌, length, All, arith, some, length-append, All-append,
}
use openstar_ads.Error.{Result, ok, ◌>>=◌}
use openstar_ads.Wire.{IsByte, le_bytes, read_exact}
use openstar_ads.Wire.Laws.{read_uint_step, read_exact-append, le_bytes-IsByte}
use openstar_ads.NetId.{AmsNetId, IsNetId}
use openstar_ads.Protocol.{
  AdsHeader, IsHeader, header_bytes, read_fields, read_header, decoding, AdsState, state_code,
  try_from,
}

pub length-header_bytes : (h : AdsHeader) → IsHeader h → length (header_bytes h) ≡ 38
unfolding header_bytes le_bytes
length-header_bytes h w = omega (
  arith,
  w.dest_netid_fits.six,
  w.src_netid_fits.six,
  length-append h.dest_netid.octets,
  length-append h.src_netid.octets,
)

pub header_bytes-IsByte : (h : AdsHeader) → IsHeader h → All IsByte (header_bytes h)
unfolding header_bytes
header_bytes-IsByte h w = number 2 h.ams_cmd _ (
    number 4 h.packet_length _ (
      All-append IsByte h.dest_netid.octets _ w.dest_netid_fits.all_bytes (
        number 2 h.dest_port _ (
          All-append IsByte h.src_netid.octets _ w.src_netid_fits.all_bytes (
            number 2 h.src_port _ (
              number 2 h.command _ (
                number 2 h.state_flags _ (
                  number 4 h.data_length _
                    (number 4 h.error_code _ (number 4 h.invoke_id [] tt))))))))))
  where
    number : (k n : ℕ) (rest : List ℕ) → All IsByte rest → All IsByte (le_bytes k n ++ rest)
    number k n rest b = All-append IsByte (le_bytes k n) rest (le_bytes-IsByte k n) b

netid_step {ℓ} :
    {A : Type ℓ} (n : AmsNetId) (rest : List ℕ) (f : List ℕ × List ℕ → Result A)
    → IsNetId n
    → (read_exact decoding 6 (n.octets ++ rest) >>= f) ≡ f (n.octets, rest)
netid_step n rest f w = ap (λ r. r >>= f) (read_exact-append decoding 6 n.octets rest w.six)

read_fields-header_bytes : (h : AdsHeader) → IsHeader h → read_fields (header_bytes h) ≡ ok h
unfolding read_fields header_bytes
read_fields-header_bytes h w =
    read_uint_step decoding 2 _ _ _ w.ams_cmd_fits
    ∙ read_uint_step decoding 4 _ _ _ w.length_fits
    ∙ netid_step h.dest_netid _ _ w.dest_netid_fits
    ∙ read_uint_step decoding 2 _ _ _ w.dest_port_fits
    ∙ netid_step h.src_netid _ _ w.src_netid_fits
    ∙ read_uint_step decoding 2 _ _ _ w.src_port_fits
    ∙ read_uint_step decoding 2 _ _ _ w.command_fits
    ∙ read_uint_step decoding 2 _ _ _ w.state_flags_fits
    ∙ read_uint_step decoding 4 _ _ _ w.data_length_fits
    ∙ read_uint_step decoding 4 _ _ _ w.error_code_fits
    ∙ read_uint_step decoding 4 _ _ _ w.invoke_id_fits

-- A header that is written is 38 bytes long, and is read back as it was.
pub read_header-header_bytes :
    (h : AdsHeader)
    → IsHeader h
    → (length (header_bytes h) ≡ 38) × (read_header (header_bytes h) ≡ ok h)
unfolding read_header
read_header-header_bytes h w =
    (length-header_bytes h w, rw (length-header_bytes h w) (read_fields-header_bytes h w))

try_from_code : (s : AdsState) → try_from (state_code s) ≡ some s
unfolding try_from state_code
try_from_code AdsState.invalid = refl
try_from_code _ = refl

try_from_inv : (v : ℕ) (s : AdsState) → try_from v ≡ some s → state_code s ≡ v
unfolding try_from state_code
try_from_inv v s e = ground arith

-- `try_from` is the inverse of `as u16`: it gives back each state from its number, and it gives a
-- state only for that state's number.
pub try_from-state_code :
    ((s : AdsState) → try_from (state_code s) ≡ some s)
    × ((v : ℕ) (s : AdsState) → try_from v ≡ some s → state_code s ≡ v)
try_from-state_code = (try_from_code, try_from_inv)
