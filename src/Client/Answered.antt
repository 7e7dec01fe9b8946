-- ===== src/Client/Answered.antt =====
-- An example of a read of four bytes, from its packet to its data.
use openstar_ads.Common.{ℕ, ◌≡◌, refl, List, [], ◌∷◌, drop, arith}
use openstar_ads.Wire.{le_value}
use openstar_ads.Protocol.{Command}
use openstar_ads.Client.Buffers.{distribute}
use openstar_ads.Client.Request.{start}
use openstar_ads.Client.Receive.{IsPacket}
use openstar_ads.Client.RoundTrip.{Served, call_lem}
use openstar_ads.Client.Samples.{
  fresh, count_send, reply_header, packet_header-IsHeader, reply_header-Answers, read_request,
}
use openstar_ads.Client.Traces.{read_packet, read_packet_started}

-- No error, a length of four, and four bytes.
abbrev four_bytes : List ℕ
four_bytes = 0 ∷ 0 ∷ 0 ∷ 0 ∷ 4 ∷ 0 ∷ 0 ∷ 0 ∷ 1 ∷ 2 ∷ 3 ∷ 4 ∷ []

abbrev two_bufs : List (List ℕ)
two_bufs = (0 ∷ 0 ∷ 0 ∷ 0 ∷ []) ∷ (0 ∷ 0 ∷ 0 ∷ 0 ∷ []) ∷ []

four_bytes-IsPacket : IsPacket (reply_header 12) four_bytes
four_bytes-IsPacket = record {
  fits = packet_header-IsHeader 2 5 12 (omega arith) (omega arith) (omega arith);
  is_command = refl;
  consistent = refl;
  complete = refl;
}

-- What the buffers hold in the end.
two_bufs_filled :
    distribute (drop 4 four_bytes) two_bufs ≡ (4 ∷ 0 ∷ 0 ∷ 0 ∷ []) ∷ (1 ∷ 2 ∷ 3 ∷ 4 ∷ []) ∷ []
unfolding distribute
two_bufs_filled = refl

call_lem_example :
    Served count_send
      (start fresh Command.read read_request 0).client
      Command.read
      0
      1
      (reply_header 12)
      four_bytes
      []
      two_bufs
      (8, distribute (drop 4 four_bytes) two_bufs)
call_lem_example =
    call_lem count_send fresh Command.read read_request 0 1 read_packet (reply_header 12) four_bytes
      [] two_bufs (8, distribute (drop 4 four_bytes) two_bufs) read_packet_started
      four_bytes-IsPacket refl (omega arith) (reply_header-Answers 12) (omega arith)
      (unfold le_value in refl) (omega arith, refl)
