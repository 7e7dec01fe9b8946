-- ===== src/Client/Samples.antt =====
-- A client, its peer, and packets, for the examples.
use openstar_ads.Common.{ℕ, ◌+◌, ◌^◌, ◌<◌, refl, List, [], ◌∷◌, none, arith}
use openstar_ads.NetId.{IsNetId, AmsAddr, IsAddr, local}
use openstar_ads.Protocol.{AdsHeader, IsHeader, Command, header_bytes, read_header}
use openstar_ads.Client.{Client, Shared, new_shared}
use openstar_ads.Client.Accepted.{Answers}
use openstar_ads.Client.Reader.{SendOutcome, accepted}

abbrev pub pc : AmsAddr
pc = record { netid = local; port = 32905 }

abbrev pub plc : AmsAddr
plc = record { netid = local; port = 851 }

-- A client that has just connected; a channel is the number of the messages that it took.
abbrev pub fresh : Client ℕ
fresh = record {
  source = pc;
  target = plc;
  invoke_id = 1;
  consecutive_timeouts = 0;
  shared = new_shared;
}

-- The same with a request pending under ID 1, and a subscriber for handle 5.
abbrev pub busy : Shared ℕ
busy = record { commands = (1, 0) ∷ []; subscribers = (5, 0) ∷ []; closed = none }

abbrev pub count_send : ℕ → List ℕ → ℕ × SendOutcome
count_send n msg = (n + 1, accepted)

pub local-IsNetId : IsNetId local
local-IsNetId = record { six = refl; all_bytes = omega arith }

pub pc-IsAddr : IsAddr pc
pc-IsAddr = record { netid_fits = local-IsNetId; port_fits = omega arith }

pub plc-IsAddr : IsAddr plc
plc-IsAddr = record { netid_fits = local-IsNetId; port_fits = omega arith }

-- A packet from the PLC, with `len` bytes of data.
abbrev pub packet_header : ℕ → ℕ → ℕ → AdsHeader
packet_header cmd flags len = record {
  ams_cmd = 0;
  packet_length = 32 + len;
  dest_netid = local;
  dest_port = 32905;
  src_netid = local;
  src_port = 851;
  command = cmd;
  state_flags = flags;
  data_length = len;
  error_code = 0;
  invoke_id = 1;
}

pub packet_header-IsHeader :
    (cmd flags len : ℕ)
    → cmd < 256
    → flags < 256
    → 32 + len < 256 ^ 4
    → IsHeader (packet_header cmd flags len)
packet_header-IsHeader cmd flags len hc hf h = record {
  ams_cmd_fits = omega arith;
  length_fits = omega arith;
  dest_netid_fits = local-IsNetId;
  dest_port_fits = omega arith;
  src_netid_fits = local-IsNetId;
  src_port_fits = omega arith;
  command_fits = omega arith;
  state_flags_fits = omega arith;
  data_length_fits = omega arith;
  error_code_fits = omega arith;
  invoke_id_fits = omega arith;
}

-- A reply to a read.
abbrev pub reply_header : ℕ → AdsHeader
reply_header len = packet_header 2 5 len

pub reply_header-Answers : (len : ℕ) → Answers plc Command.read 1 (reply_header len)
unfolding openstar_ads.Protocol.command_code
reply_header-Answers len = record {
  from_target = refl;
  same_command = refl;
  is_response = refl;
  same_id = refl;
  no_error = refl;
}

-- A read of four bytes from index group 0x4020.
abbrev pub read_request : List (List ℕ)
read_request = (0x20 ∷ 0x40 ∷ 0 ∷ 0 ∷ 0 ∷ 0 ∷ 0 ∷ 0 ∷ 4 ∷ 0 ∷ 0 ∷ 0 ∷ []) ∷ []
