-- ===== src/Client/Traces.antt =====
-- Examples of calls, of packets at the reader, and of whole runs.
use openstar_ads.Common.{
  ℕ, ◌+◌, ◌^◌, ◌≡◌, ◌≢◌, ◌↔◌, ◌⊎◌, inl, inr, ◌<◌, ◌≤◌, refl, ap, List, [], ◌∷◌, ◌++◌, none, some,
  length, take, drop, All, arith,
}
use openstar_ads.Common.Map.{get, insert, remove}
use openstar_ads.Error.{Error, ok, err, panic}
use openstar_ads.Wire.{le_bytes}
use openstar_ads.Protocol.{Command, header_bytes, read_header}
use openstar_ads.Notification.Stamps.{Stamp, IsStamp, encode_stamps, encode_entries}
use openstar_ads.Notification.Iterate.{stamp_samples}
use openstar_ads.Client.Buffers.{total_length, concat}
use openstar_ads.Client.Request.{start}
use openstar_ads.Client.Calls.{sent_header, advanced, start_lem, start_packet}
use openstar_ads.Client.Reader.{unchanged, dest_of, receive, reader_work, reader_task, panicked}
use openstar_ads.Client.Delivery.{Delivers}
use openstar_ads.Client.Receive.{IsPacket, receive_reply}
use openstar_ads.Client.Notify.{stamps_payload, receive_notification, receive-panic}
use openstar_ads.Client.Loop.{reader_task-closed}
use openstar_ads.Client.Samples.{
  pc, fresh, busy, count_send, pc-IsAddr, plc-IsAddr, reply_header, packet_header,
  packet_header-IsHeader, read_request,
}

start_lem_example :
    ((32 + 12 < 2 ^ 32)
      × (fresh.shared.closed ≡ none)
      × (start fresh Command.read read_request 0 ≡ record {
        client = record (advanced fresh) {
          shared = record fresh.shared { commands = insert 1 0 [] };
        };
        result = ok (1, header_bytes (sent_header fresh Command.read 12) ++ concat read_request);
      }))
    ⊎ ((2 ^ 32 ≤ 32 + 12)
        × (start fresh Command.read read_request 0
            ≡ record { client = advanced fresh; result = err Error.overflow }))
    ⊎ ((32 + 12 < 2 ^ 32)
        × (fresh.shared.closed ≢ none)
        × (start fresh Command.read read_request 0
            ≡ record { client = advanced fresh; result = err Error.disconnected }))
unfolding total_length
start_lem_example = start_lem fresh Command.read read_request 0

abbrev pub read_packet : List ℕ
read_packet = header_bytes (sent_header fresh Command.read 12) ++ concat read_request

pub read_packet_started : (start fresh Command.read read_request 0).result ≡ ok (1, read_packet)
unfolding total_length
read_packet_started = elim (start_lem fresh Command.read read_request 0) [
  | inl (_, _, e) ↦ ap (λ s. s.result) e
  | inr (inl (long, _)) ↦ absurd (omega arith)
  | inr (inr (_, ended, _)) ↦ absurd (ended refl)
]

start_packet_example :
    (read_header (take 38 read_packet)
      ≡ ok (sent_header fresh Command.read (total_length read_request)))
    × (drop 38 read_packet ≡ concat read_request)
    × (length (concat read_request) ≡ total_length read_request)
    × (◌≡◌ {A = ℕ} 1 1)
start_packet_example =
    start_packet fresh Command.read read_request 0 1 read_packet pc-IsAddr plc-IsAddr (omega arith)
      read_packet_started

packet :
    (cmd flags len : ℕ) (payload : List ℕ)
    → cmd < 256
    → flags < 256
    → length payload ≡ len
    → 32 + len < 256 ^ 4
    → IsPacket (packet_header cmd flags len) payload
packet cmd flags len payload hc hf e h = record {
  fits = packet_header-IsHeader cmd flags len hc hf h;
  is_command = refl;
  consistent = refl;
  complete = e;
}

receive_reply_example :
    let h = reply_header 4 in
    let payload : List ℕ = 0 ∷ 0 ∷ 0 ∷ 0 ∷ [] in
    (dest_of h ≢ pc
      → receive count_send pc busy (header_bytes h ++ (payload ++ [])) ≡ ok (unchanged busy, []))
    × (dest_of h ≡ pc
        → get 1 busy.commands ≡ none
        → receive count_send pc busy (header_bytes h ++ (payload ++ [])) ≡ ok (unchanged busy, []))
    × ((slot : ℕ)
        → dest_of h ≡ pc
        → get 1 busy.commands ≡ some slot
        → receive count_send pc busy (header_bytes h ++ (payload ++ []))
          ≡ ok (
            record {
              shared = record busy { commands = remove 1 busy.commands };
              replies = (slot, h, payload) ∷ [];
              unsubscribe = [];
            },
            [],
          ))
receive_reply_example =
    receive_reply count_send pc busy (reply_header 4) (0 ∷ 0 ∷ 0 ∷ 0 ∷ []) []
      (packet 2 5 4 (0 ∷ 0 ∷ 0 ∷ 0 ∷ []) (omega arith) (omega arith) refl (omega arith))
      (omega arith)

-- A notification with one stamp, of the value 1 2 for handle 5.
abbrev one_stamp : List Stamp
one_stamp =
    record { timestamp = 7; entries = record { handle = 5; payload = 1 ∷ 2 ∷ [] } ∷ [] } ∷ []

one_stamp-IsStamp : All IsStamp one_stamp
one_stamp-IsStamp = (
  record {
    timestamp_fits = omega arith;
    count_fits = omega arith;
    entries_fit = (record { handle_fits = omega arith; length_fits = omega arith }, tt);
  },
  tt,
)

one_stamp-length : length (stamps_payload one_stamp) ≡ 30
unfolding le_bytes encode_stamps encode_entries
one_stamp-length = refl

receive_notification_example :
    (subscribers : List (ℕ × ℕ)) × (dropped : List ℕ) × (receive count_send pc busy
        (header_bytes (packet_header 8 4 30) ++ (stamps_payload one_stamp ++ []))
      ≡ ok (
        record {
          shared = record busy { subscribers = subscribers };
          replies = [];
          unsubscribe = dropped;
        },
        [],
      ))
    × Delivers count_send busy.subscribers (stamp_samples one_stamp) subscribers dropped
receive_notification_example =
    receive_notification count_send pc busy (packet_header 8 4 30) one_stamp []
      (packet 8 4 30 (stamps_payload one_stamp) (omega arith) (omega arith) one_stamp-length
        (omega arith))
      refl refl refl refl one_stamp-IsStamp (omega arith)

receive-panic_example :
    (receive count_send pc busy (header_bytes (packet_header 8 4 2) ++ ((0 ∷ 0 ∷ []) ++ []))
      ≡ panic)
    ↔ ((dest_of (packet_header 8 4 2) ≡ pc) × (◌≡◌ {A = ℕ} 8 8) × (2 < 4))
receive-panic_example =
    receive-panic count_send pc busy (packet_header 8 4 2) (0 ∷ 0 ∷ []) []
      (packet 8 4 2 (0 ∷ 0 ∷ []) (omega arith) (omega arith) refl (omega arith)) (omega arith)

reader_task-closed_example :
    ((reader_work count_send 10 pc busy (1 ∷ 2 ∷ 3 ∷ [])).1 ≡ panicked)
    ⊎ ((reader_task count_send 10 pc busy (1 ∷ 2 ∷ 3 ∷ [])).0.closed ≢ none)
reader_task-closed_example = reader_task-closed count_send 10 pc busy (1 ∷ 2 ∷ 3 ∷ []) (omega arith)
