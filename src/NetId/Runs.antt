-- ===== src/NetId/Runs.antt =====
-- Examples of addresses.
use openstar_ads.Common.{◌≡◌, refl, arith}
use openstar_ads.NetId.{AmsAddr, IsAddr, local}
use openstar_ads.NetId.Decimal.{good}
use openstar_ads.NetId.Parse.{addr_from_str, addr_fmt, addr_from_str-addr_fmt}

abbrev plc : AmsAddr
plc = record { netid = local; port = 851 }

plc-IsAddr : IsAddr plc
plc-IsAddr = record {
  netid_fits = record { six = refl; all_bytes = omega arith };
  port_fits = omega arith;
}

addr_from_str-addr_fmt_example : addr_from_str (addr_fmt plc) ≡ good plc
addr_from_str-addr_fmt_example = addr_from_str-addr_fmt plc plc-IsAddr
