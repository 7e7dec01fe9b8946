-- ===== src/Client/Reader.antt =====
-- src/core/client.rs: `ClientReceiver::reader_work`, the task that takes packets off the socket.
-- The socket is the list of the bytes that are still to come.
use openstar_ads.Common.{
  ℕ, zero, suc, ◌-◌, List, [], ◌∷◌, ◌++◌, not, ◌&&◌, ◌||◌, Option, none, some, ltb, leb, ◌==◌,
  if◌then◌else◌, take, drop,
}
use openstar_ads.Common.Map.{get, insert, remove}
use openstar_ads.Error.{Error, Result, ok, err, panic, ◌>>=◌, reply}
use openstar_ads.Wire.{le_value, read_exact, split_at}
use openstar_ads.NetId.{AmsAddr, same_addr}
use openstar_ads.Protocol.{AdsHeader, Command, command_code, read_header, ams_header_size}
use openstar_ads.Notification.{Notification, Sample, new, all_samples}
use openstar_ads.Client.{Shared, tear_down}

-- What `mpsc::Sender::try_send` answers.
pub data SendOutcome : Type 0 where
  accepted full closed : SendOutcome

-- A packet as it comes off the socket: junk that is too short for a header, or the bytes of the
-- header, the packet length of the AMS/TCP header, the header, and the payload.
pub data Frame : Type 0 where
  junk : Frame
  frame : List ℕ → ℕ → AdsHeader → List ℕ → Frame

-- The reads of one round of the loop.
unfoldable pub read_frame : List ℕ → Result (Frame × List ℕ)
read_frame socket = do
  (head, socket) ← read_exact "receiving AMS/TCP header" 6 socket
  let packet_len = le_value (take 4 (drop 2 head))
  let bad_data = do
    (discard, socket) ← read_exact "discarding bad data" packet_len socket
    ok (junk, socket)
  let whole = do
    (tail, socket) ← read_exact "receiving AMS header" 32 socket
    h ← read_header (head ++ tail)
    (payload, socket) ← read_exact "receiving Ads data payload" h.data_length socket
    ok (frame (head ++ tail) packet_len h payload, socket)
  if ltb packet_len ams_header_size then bad_data else whole

-- The address that a header is meant for.
abbrev pub dest_of : AdsHeader → AmsAddr
dest_of h = record { netid = h.dest_netid; port = h.dest_port }

-- What a round does: the shared state, the replies that it passes on (to which request, and what),
-- and the notifications that it asks to delete.
pub record Turn (Chan : Type 0) : Type 0 where
  pub shared : Shared Chan
  pub replies : List (ℕ × AdsHeader × List ℕ)
  pub unsubscribe : List ℕ

-- How the loop ended: by an error, by a panic, or with its fuel used up.
pub data Ending : Type 0 where
  failed : Error → Ending
  panicked exhausted : Ending

module _ {Chan : Type 0} where
  -- `continue`.
  abbrev pub unchanged : Shared Chan → Turn Chan
  unchanged s = record { shared = s; replies = []; unsubscribe = [] }

  -- A reply goes to the request that waits under its invoke ID, and a late one is ignored.
  unfoldable pub pass_on : Shared Chan → AdsHeader → List ℕ → Option ℕ → Turn Chan
  pass_on s h payload none = unchanged s
  pass_on s h payload (some slot) = record {
    shared = record s { commands = remove h.invoke_id s.commands };
    replies = (slot, h, payload) ∷ [];
    unsubscribe = [];
  }

-- A handle whose receiver is gone is kept for its deletion.
abbrev pub dropped_after : ℕ → SendOutcome → List ℕ → List ℕ
dropped_after handle closed dropped = handle ∷ dropped
dropped_after handle accepted dropped = dropped
dropped_after handle full dropped = dropped

module _ {Chan : Type 0} (try_send : Chan → List ℕ → Chan × SendOutcome) where
  -- One sample, offered to the subscriber of its handle if there is one, and the further ones.
  abbrev pub offer_to :
      (List (ℕ × Chan) → List (ℕ × Chan) × List ℕ)
      → List (ℕ × Chan)
      → Sample
      → Option Chan
      → List (ℕ × Chan) × List ℕ
  offer_to later subscribers sample none = later subscribers
  offer_to later subscribers sample (some subscriber) =
      let (subscriber', outcome) = try_send subscriber sample.payload in
      let (subscribers', dropped) = later (insert sample.handle subscriber' subscribers) in
      (subscribers', dropped_after sample.handle outcome dropped)

  -- The loop over the samples: the subscribers after it, and the handles whose receiver is gone.
  unfoldable pub deliver : List (ℕ × Chan) → List Sample → List (ℕ × Chan) × List ℕ
  deliver subscribers [] = (subscribers, [])
  deliver subscribers (sample ∷ samples) =
      offer_to (λ subscribers. deliver subscribers samples) subscribers sample
        (get sample.handle subscribers)

  -- `Notification::new` and the delivery of the samples; a message that does not parse is ignored.
  unfoldable pub publish : Shared Chan → Result Notification → Result (Turn Chan)
  publish s panic = panic
  publish s (err e) = ok (unchanged s)
  publish s (ok notif) = do
    samples ← all_samples notif
    elim samples [
      | none ↦ panic
      | some samples ↦
          let (subscribers, dropped) = deliver s.subscribers samples in
          ok (record {
            shared = record s { subscribers = subscribers };
            replies = [];
            unsubscribe = dropped;
          })
    ]

  -- A notification: the length field is read off the payload with no test of its length.
  unfoldable pub notify : Shared Chan → List ℕ → AdsHeader → List ℕ → Result (Turn Chan)
  unfolding publish
  notify s header_buf h payload = do
    (field, rest) ← split_at 4 payload
    let notif_payload_len = le_value field
    if not (h.state_flags == 4)
          || not (h.error_code == 0)
          || not (notif_payload_len == (h.data_length - 4))
          || ltb notif_payload_len 4
        then ok (unchanged s)
        else publish s (new (header_buf ++ payload))

  -- A packet whose lengths agree.
  unfoldable pub dispatch : AmsAddr → Shared Chan → List ℕ → AdsHeader → List ℕ → Result (Turn Chan)
  unfolding pass_on notify
  dispatch source s header_buf h payload =
      if not (same_addr (dest_of h) source)
      then ok (unchanged s)
      else (if not (h.command == command_code Command.notification)
          then ok (pass_on s h payload (get h.invoke_id s.commands))
          else notify s header_buf h payload)

  -- The packet's reserved bytes decide: 0 is a packet, 1 and 4096 to 4098 are passed over.
  unfoldable pub handle_frame : AmsAddr → Shared Chan → Frame → Result (Turn Chan)
  unfolding dispatch
  handle_frame source s junk = ok (unchanged s)
  handle_frame source s (frame header_buf packet_len h payload) =
      let reserved = le_value (take 2 header_buf) in
      if reserved == 0
      then (if not (h.data_length == (packet_len - ams_header_size))
          then err (
              reply "interpreting received AMS packet"
                "AMS/TCP header and AMS header contain inconsistent data" 0)
          else dispatch source s header_buf h payload)
      else (if reserved == 1 || (leb 4096 reserved && leb reserved 4098)
          then ok (unchanged s)
          else err (reply "interpreting received AMS packet" "invalid packet" reserved))

  -- One round of the loop.
  unfoldable pub receive : AmsAddr → Shared Chan → List ℕ → Result (Turn Chan × List ℕ)
  unfolding handle_frame
  receive source s socket = do
    (packet, socket) ← read_frame socket
    turn ← handle_frame source s packet
    ok (turn, socket)

  -- `reader_work`: rounds until one fails. It returns the last state, all that the rounds passed on,
  -- and how it ended.
  unfoldable pub reader_work : ℕ → AmsAddr → Shared Chan → List ℕ → Turn Chan × Ending
  reader_work zero source s socket = (unchanged s, exhausted)
  reader_work (suc fuel) source s socket = elim (receive source s socket) [
    | err e ↦ (unchanged s, failed e)
    | panic ↦ (unchanged s, panicked)
    | ok (turn, socket) ↦
        let (last, ending) = reader_work fuel source turn.shared socket in
        (
          record {
            shared = last.shared;
            replies = turn.replies ++ last.replies;
            unsubscribe = turn.unsubscribe ++ last.unsubscribe;
          },
          ending,
        )
  ]

  -- The task that `start` spawns: the end of `reader_work` tears the connection down, a panic in it
  -- ends the task where it is.
  abbrev pub task_end : Shared Chan → Ending → Shared Chan × List (ℕ × Error)
  task_end s (failed e) = tear_down s e
  task_end s panicked = (s, [])
  task_end s exhausted = (s, [])

  unfoldable pub reader_task : ℕ → AmsAddr → Shared Chan → List ℕ → Shared Chan × List (ℕ × Error)
  unfolding reader_work
  reader_task fuel source s socket =
      let (last, ending) = reader_work fuel source s socket in task_end last.shared ending
