-- ===== src/Client/Reply.antt =====
-- src/core/client.rs: what `communicate` does with the reply that the reader hands to it.
use openstar_ads.Common.{ℕ, ◌+◌, ◌%◌, ◌^◌, List, [], ◌∷◌, length, ltb, ◌==◌, if◌then◌else◌}
use openstar_ads.Error.{Error, Result, ok, err, ◌>>=◌, ◌>>◌, guard}
use openstar_ads.Error.Search.{ads_error}
use openstar_ads.Wire.{le_value, split_at}
use openstar_ads.NetId.{AmsAddr, same_addr}
use openstar_ads.Protocol.{AdsHeader, Command, command_code, action}
use openstar_ads.Client.Buffers.{distribute}

-- The address that a header names as its source.
abbrev pub source_of : AdsHeader → AmsAddr
source_of h = record { netid = h.src_netid; port = h.src_port }

-- The checks of the reply's header, in their order.
unfoldable pub check_header : AmsAddr → Command → ℕ → AdsHeader → Result (Unit {0})
check_header target cmd id h = do
  guard (same_addr (source_of h) target)
      (Error.reply (action cmd) "response wasn't from commanded target" 0)
  guard (h.command == command_code cmd) (Error.reply (action cmd) "unexpected command" h.command)
  guard (h.state_flags == 5) (Error.reply (action cmd) "unexpected state flags" h.state_flags)
  guard (h.invoke_id == id) (Error.reply (action cmd) "unexpected invoke ID" h.invoke_id)
  if h.error_code == 0 then ok tt else ads_error (action cmd) h.error_code

-- The data behind the result field, dealt out to the buffers, and its length.
unfoldable pub hand_out : Command → List ℕ → List ℕ → List (List ℕ) → Result (ℕ × List (List ℕ))
hand_out cmd resp_buf rest [] = ok (0, [])
hand_out cmd resp_buf rest (buf ∷ bufs) =
    if ltb (length resp_buf) (length buf + 4)
    then err (Error.reply (action cmd) "got less data than expected" (length resp_buf % 2 ^ 32))
    else ok (length rest, distribute rest (buf ∷ bufs))

-- From the header's checks to the end of `communicate`. The result field is sliced off the reply
-- with no test of its length.
unfoldable pub process_reply :
    AmsAddr → Command → ℕ → AdsHeader → List ℕ → List (List ℕ) → Result (ℕ × List (List ℕ))
unfolding hand_out
process_reply target cmd id h resp_buf bufs = do
  check_header target cmd id h
  (field, rest) ← split_at 4 resp_buf
  if le_value field == 0
      then hand_out cmd resp_buf rest bufs
      else ads_error (action cmd) (le_value field)
