-- ===== src/Protocol.antt =====
-- src/core/protocol.rs: the commands, the states and the packed structures of the protocol.
pub mod Codec
pub mod Names
pub mod Spelling
mod Runs
use openstar_ads.Common.{
  ℕ, zero, ◌+◌, ◌^◌, ◌<◌, ◌≡◌, String, List, [], ◌∷◌, ◌++◌, Option, none, some, length, replicate,
  if◌then◌else◌, ◌==◌,
}
use openstar_ads.Error.{Result, ok, err, panic, ◌>>=◌, io, from_kind, IoKind}
use openstar_ads.Wire.{le_bytes, read_uint, read_exact}
use openstar_ads.NetId.{AmsNetId, IsNetId}

abbrev pub ams_tcp_header_size : ℕ
ams_tcp_header_size = 6

abbrev pub ams_header_size : ℕ
ams_header_size = 32

abbrev pub ads_header_size : ℕ
ads_header_size = ams_tcp_header_size + ams_header_size

-- `Command`.
pub data Command : Type 0 where
  dev_info read write read_write read_state write_control : Command
  add_notification delete_notification notification : Command

-- `cmd as u16`.
unfoldable pub command_code : Command → ℕ
command_code dev_info = 1
command_code read = 2
command_code write = 3
command_code read_write = 9
command_code read_state = 4
command_code write_control = 5
command_code add_notification = 6
command_code delete_notification = 7
command_code notification = 8

-- `Command::action`.
unfoldable pub action : Command → String
action dev_info = "get device info"
action read = "read data"
action write = "write data"
action read_write = "write and read data"
action read_state = "read state"
action write_control = "write control"
action add_notification = "add notification"
action delete_notification = "delete notification"
action notification = "notification"

-- `AdsState`.
pub data AdsState : Type 0 where
  invalid idle reset init start run stop save_cfg load_cfg power_fail power_good : AdsState
  error shutdown suspend resume config reconfig stopping incompatible exception : AdsState

-- `state as u16`.
unfoldable pub state_code : AdsState → ℕ
state_code invalid = 0
state_code idle = 1
state_code reset = 2
state_code init = 3
state_code start = 4
state_code run = 5
state_code stop = 6
state_code save_cfg = 7
state_code load_cfg = 8
state_code power_fail = 9
state_code power_good = 10
state_code error = 11
state_code shutdown = 12
state_code suspend = 13
state_code resume = 14
state_code config = 15
state_code reconfig = 16
state_code stopping = 17
state_code incompatible = 18
state_code exception = 19

-- `AdsState::try_from`; `none` is `Err("invalid state constant")`.
unfoldable pub try_from : ℕ → Option AdsState
try_from value =
    if value == 0
    then some invalid
    else if value == 1
    then some idle
    else if value == 2
    then some reset
    else if value == 3
    then some init
    else if value == 4
    then some start
    else if value == 5
    then some run
    else if value == 6
    then some stop
    else if value == 7
    then some save_cfg
    else if value == 8
    then some load_cfg
    else if value == 9
    then some power_fail
    else if value == 10
    then some power_good
    else if value == 11
    then some error
    else if value == 12
    then some shutdown
    else if value == 13
    then some suspend
    else if value == 14
    then some resume
    else if value == 15
    then some config
    else if value == 16
    then some reconfig
    else if value == 17
    then some stopping
    else if value == 18
    then some incompatible
    else if value == 19
    then some exception
    else none

-- `DeviceInfo`; the name is a list of characters.
pub record DeviceInfo : Type 0 where
  pub name : List ℕ
  pub major : ℕ
  pub minor : ℕ
  pub version : ℕ

-- `AdsStateInfo`.
pub record AdsStateInfo : Type 0 where
  pub ads_state : AdsState
  pub device_state : ℕ

-- `AdsHeader`, less the two addresses' grouping.
pub record AdsHeader : Type 0 where
  pub ams_cmd : ℕ
  pub packet_length : ℕ
  pub dest_netid : AmsNetId
  pub dest_port : ℕ
  pub src_netid : AmsNetId
  pub src_port : ℕ
  pub command : ℕ
  pub state_flags : ℕ
  pub data_length : ℕ
  pub error_code : ℕ
  pub invoke_id : ℕ

-- What the types of the fields say.
pub record IsHeader (h : AdsHeader) : Type 0 where
  pub ams_cmd_fits : h.ams_cmd < 256 ^ 2
  pub length_fits : h.packet_length < 256 ^ 4
  pub dest_netid_fits : IsNetId h.dest_netid
  pub dest_port_fits : h.dest_port < 256 ^ 2
  pub src_netid_fits : IsNetId h.src_netid
  pub src_port_fits : h.src_port < 256 ^ 2
  pub command_fits : h.command < 256 ^ 2
  pub state_flags_fits : h.state_flags < 256 ^ 2
  pub data_length_fits : h.data_length < 256 ^ 4
  pub error_code_fits : h.error_code < 256 ^ 4
  pub invoke_id_fits : h.invoke_id < 256 ^ 4

-- `header.as_bytes()`.
unfoldable pub header_bytes : AdsHeader → List ℕ
header_bytes h =
    le_bytes 2 h.ams_cmd
    ++ (le_bytes 4 h.packet_length
        ++ (h.dest_netid.octets
            ++ (le_bytes 2 h.dest_port
                ++ (h.src_netid.octets
                    ++ (le_bytes 2 h.src_port
                        ++ (le_bytes 2 h.command
                            ++ (le_bytes 2 h.state_flags
                                ++ (le_bytes 4 h.data_length
                                    ++ (le_bytes 4 h.error_code
                                        ++ (le_bytes 4 h.invoke_id ++ []))))))))))

abbrev pub decoding : String
decoding = "decoding AMS header"

-- The fields of a header, one after the other.
unfoldable pub read_fields : List ℕ → Result AdsHeader
read_fields ptr = do
  (ams_cmd, ptr) ← read_uint decoding 2 ptr
  (len, ptr) ← read_uint decoding 4 ptr
  (dest, ptr) ← read_exact decoding 6 ptr
  (dest_port, ptr) ← read_uint decoding 2 ptr
  (src, ptr) ← read_exact decoding 6 ptr
  (src_port, ptr) ← read_uint decoding 2 ptr
  (command, ptr) ← read_uint decoding 2 ptr
  (flags, ptr) ← read_uint decoding 2 ptr
  (data_len, ptr) ← read_uint decoding 4 ptr
  (code, ptr) ← read_uint decoding 4 ptr
  (id, ptr) ← read_uint decoding 4 ptr
  ok (record {
    ams_cmd = ams_cmd;
    packet_length = len;
    dest_netid = record { octets = dest };
    dest_port = dest_port;
    src_netid = record { octets = src };
    src_port = src_port;
    command = command;
    state_flags = flags;
    data_length = data_len;
    error_code = code;
    invoke_id = id;
  })

-- `AdsHeader::read_from_bytes`, with the error that the reader makes of a wrong size.
unfoldable pub read_header : List ℕ → Result AdsHeader
read_header slice =
    if length slice == ads_header_size
    then read_fields slice
    else err (io decoding (from_kind IoKind.invalid_data))

-- `IndexLength`, `IndexLengthRW`, `ReadState`, `WriteControl`, `AddNotif`: their bytes.
unfoldable pub index_length_bytes : ℕ → ℕ → ℕ → List ℕ
index_length_bytes group offset len = le_bytes 4 group ++ (le_bytes 4 offset ++ le_bytes 4 len)

unfoldable pub index_length_rw_bytes : ℕ → ℕ → ℕ → ℕ → List ℕ
index_length_rw_bytes group offset read_len write_len =
    le_bytes 4 group ++ (le_bytes 4 offset ++ (le_bytes 4 read_len ++ le_bytes 4 write_len))

unfoldable pub write_control_bytes : ℕ → ℕ → ℕ → List ℕ
write_control_bytes ads_state dev_state data_length =
    le_bytes 2 ads_state ++ (le_bytes 2 dev_state ++ le_bytes 4 data_length)

unfoldable pub add_notif_bytes : ℕ → ℕ → ℕ → ℕ → ℕ → ℕ → List ℕ
add_notif_bytes group offset len mode max_delay cycle_time =
    le_bytes 4 group
    ++ (le_bytes 4 offset
        ++ (le_bytes 4 len
            ++ (le_bytes 4 mode
                ++ (le_bytes 4 max_delay ++ (le_bytes 4 cycle_time ++ replicate 16 0)))))
