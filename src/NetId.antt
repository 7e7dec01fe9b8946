-- ===== src/NetId.antt =====
-- src/core/netid.rs: AMS NetIDs and addresses.
pub mod Decimal
pub mod Split
pub mod Parse
mod Runs
use openstar_ads.Common.{
  ℕ, ◌≡◌, ◌<◌, ◌^◌, List, [], ◌∷◌, Bool, true, false, ◌&&◌, Option, none, some, length, All,
  if◌then◌else◌, ◌==◌, ◌↔◌, arith,
}
use openstar_ads.Wire.{IsByte}

-- `AmsNetId([u8; 6])`.
pub record AmsNetId : Type 0 where
  pub octets : List ℕ

-- What the type `[u8; 6]` says.
pub record IsNetId (n : AmsNetId) : Type 0 where
  pub six : length n.octets ≡ 6
  pub all_bytes : All IsByte n.octets

-- `AmsAddr`: a NetID and a port.
pub record AmsAddr : Type 0 where
  pub netid : AmsNetId
  pub port : ℕ

pub record IsAddr (a : AmsAddr) : Type 0 where
  pub netid_fits : IsNetId a.netid
  pub port_fits : a.port < 256 ^ 2

-- `AmsNetId::local`.
abbrev pub local : AmsNetId
local = record { octets = 127 ∷ 0 ∷ 0 ∷ 1 ∷ 1 ∷ 1 ∷ [] }

-- `AmsNetId::from_slice`.
unfoldable pub from_slice : List ℕ → Option AmsNetId
from_slice slice = if length slice == 6 then some (record { octets = slice }) else none

-- The derived equality of NetIDs.
unfoldable pub same_octets : List ℕ → List ℕ → Bool
same_octets [] [] = true
same_octets [] (y ∷ ys) = false
same_octets (x ∷ xs) [] = false
same_octets (x ∷ xs) (y ∷ ys) = (x == y) && same_octets xs ys

-- `(netid, port) == (netid, port)`.
unfoldable pub same_addr : AmsAddr → AmsAddr → Bool
same_addr a b = same_octets a.netid.octets b.netid.octets && (a.port == b.port)

-- `AmsNetId::is_zero`.
unfoldable pub is_zero : AmsNetId → Bool
is_zero n = same_octets n.octets (0 ∷ 0 ∷ 0 ∷ 0 ∷ 0 ∷ 0 ∷ [])

pub same_octets_iff : (xs ys : List ℕ) → (same_octets xs ys ≡ true) ↔ (xs ≡ ys)
unfolding same_octets
same_octets_iff [] [] = ground arith
same_octets_iff [] (y ∷ ys) = ground arith
same_octets_iff (x ∷ xs) [] = ground arith
same_octets_iff (x ∷ xs) (y ∷ ys) = ground (arith, same_octets_iff xs ys)

-- The comparison of addresses is equality.
pub same_addr_iff : (a b : AmsAddr) → (same_addr a b ≡ true) ↔ (a ≡ b)
unfolding same_addr
same_addr_iff a b = ground (arith, same_octets_iff a.netid.octets b.netid.octets)
