-- ===== src/Client/Commands.antt =====
-- src/core/client.rs: the commands that the client offers, on top of `communicate`, and its close.
pub mod Reads
pub mod Subscriptions
pub mod Stable
pub mod Refusals
use openstar_ads.Common.{
  ℕ, zero, suc, ◌+◌, ◌%◌, ◌^◌, List, [], ◌∷◌, ◌++◌, Bool, true, false, Option, none, some, ltb,
  ◌==◌, if◌then◌else◌, length, take, drop, replicate,
}
use openstar_ads.Common.Map.{get, insert, remove, keys}
use openstar_ads.Error.{Error, Result, ok, err, panic, ◌>>=◌, ◌>>◌, guard}
use openstar_ads.Wire.{le_value, le_bytes}
use openstar_ads.NetId.{AmsNetId, AmsAddr, same_octets}
use openstar_ads.Protocol.{
  Command, AdsState, state_code, try_from, DeviceInfo, AdsStateInfo, index_length_bytes,
  index_length_rw_bytes, write_control_bytes, add_notif_bytes,
}
use openstar_ads.Notification.{NotificationAttributes, trans_mode_code}
use openstar_ads.Client.{Client, Shared, subscribe, tear_down}

-- The contents of the `n`-th buffer.
abbrev pub nth_buf : ℕ → List (List ℕ) → List ℕ
nth_buf n [] = []
nth_buf zero (buf ∷ bufs) = buf
nth_buf (suc n) (buf ∷ bufs) = nth_buf n bufs

-- `take_while(|ch| ch > 0)`.
abbrev pub until_zero : List ℕ → List ℕ
until_zero [] = []
until_zero (b ∷ bs) = let rest = until_zero bs in if b == 0 then [] else b ∷ rest

-- What `DeviceInfoRaw` says.
unfoldable pub device_info : List ℕ → DeviceInfo
device_info raw = record {
  name = until_zero (drop 4 raw);
  major = le_value (take 1 raw);
  minor = le_value (take 1 (drop 1 raw));
  version = le_value (take 2 (drop 2 raw));
}

-- What `ReadState` says; a state that is not known is an error.
unfoldable pub state_info : ℕ → ℕ → Option AdsState → Result AdsStateInfo
state_info code device_state none = err (Error.reply "read state" "invalid state constant" code)
state_info code device_state (some state) =
    ok (record { ads_state = state; device_state = device_state })

-- `len.try_into()?` into 32 bits, for each of the numbers.
abbrev pub all_fit : List ℕ → Result (Unit {0})
all_fit [] = ok tt
all_fit (n ∷ ns) = guard (ltb n (2 ^ 32)) Error.overflow >> all_fit ns

-- The source address that the router answers a port request with, in a buffer of 14 bytes.
unfoldable pub requested_source : List ℕ → Result AmsAddr
requested_source reply = do
  guard (same_octets (take 6 reply) (0 ∷ 16 ∷ 8 ∷ 0 ∷ 0 ∷ 0 ∷ []))
      (Error.reply "requesting port" "unexpected reply header" 0)
  ok (record {
    netid = record { octets = take 6 (drop 6 reply) };
    port = le_value (take 2 (drop 12 reply));
  })

-- The message that gives the port back.
abbrev pub close_port_message : ℕ → List ℕ
close_port_message port = 1 ∷ 0 ∷ 2 ∷ 0 ∷ 0 ∷ 0 ∷ le_bytes 2 port

-- A client after an operation, and its result.
abbrev pub Outcome : Type 0 → Type 0 → Type 0
Outcome Chan A = Client Chan × Result A

-- What comes of code that has no error to return: it returns, or a panic unwinds it.
pub data Returns (A : Type 0) : Type 0 where
  finished : A → Returns A
  unwound : Returns A

-- `close`: the client, and what is written last with the answers that `tear_down` sends.
abbrev pub Closing : Type 0 → Type 0
Closing Chan = Client Chan × Returns (List ℕ × List (ℕ × Error))

-- `communicate`, as the commands see it: the command, the data to send, and the buffers for the reply.
abbrev pub Exchange : Type 0 → Type 0
Exchange Chan =
    Client Chan → Command → List (List ℕ) → List (List ℕ) → Outcome Chan (ℕ × List (List ℕ))

module _ {Chan : Type 0} where
  -- What is made of a result, where the client is no longer changed.
  abbrev pub then_result : {A B : Type 0} → Outcome Chan A → (A → Result B) → Outcome Chan B
  then_result (c, r) f = (c, r >>= f)

  -- An exchange that is made once the tests before it have passed.
  abbrev pub checked :
      {A : Type 0} → Client Chan → Result (Unit {0}) → Outcome Chan A → Outcome Chan A
  checked c (ok u) after = after
  checked c (err e) after = (c, err e)
  checked c panic after = (c, panic)

  -- A step that needs the state, after an exchange that succeeded.
  abbrev pub then_step :
      {A B : Type 0} → Outcome Chan A → (Client Chan → A → Outcome Chan B) → Outcome Chan B
  then_step (c, ok a) f = f c a
  then_step (c, err e) f = (c, err e)
  then_step (c, panic) f = (c, panic)

  -- `self.shared.subscribe(...)?`.
  abbrev pub subscribed : Client Chan → ℕ → Result (Shared Chan) → Outcome Chan ℕ
  subscribed c handle (ok s) = (record c { shared = s }, ok handle)
  subscribed c handle (err e) = (c, err e)
  subscribed c handle panic = (c, panic)

  module _ (communicate : Exchange Chan) where
    unfoldable pub read_device_info : Client Chan → Outcome Chan DeviceInfo
    unfolding device_info
    read_device_info c =
        then_result (communicate c Command.dev_info [] (replicate 20 0 ∷ []))
          (λ (n, bufs). ok (device_info (nth_buf 0 bufs)))

    -- The length that the reply names, and the buffer.
    unfoldable pub read : Client Chan → ℕ → ℕ → List ℕ → Outcome Chan (ℕ × List ℕ)
    read c index_group index_offset buf = checked c (all_fit (length buf ∷ [])) (
        then_result
          (communicate c Command.read
            (index_length_bytes index_group index_offset (length buf) ∷ [])
            (replicate 4 0 ∷ buf ∷ []))
          (λ (n, bufs). ok (le_value (nth_buf 0 bufs), nth_buf 1 bufs)))

    unfoldable pub read_exact : Client Chan → ℕ → ℕ → List ℕ → Outcome Chan (List ℕ)
    unfolding read
    read_exact c index_group index_offset buf =
        then_result (read c index_group index_offset buf) (λ (len, filled).
          if len == length buf
          then ok filled
          else err (Error.reply "read data" "got less data than expected" len))

    unfoldable pub write : Client Chan → ℕ → ℕ → List ℕ → Outcome Chan (Unit {0})
    write c index_group index_offset bytes = checked c (all_fit (length bytes ∷ [])) (
        then_result
          (communicate c Command.write
            (index_length_bytes index_group index_offset (length bytes) ∷ bytes ∷ []) [])
          (λ r. ok tt))

    -- `read_value`, for a type of `size` bytes whose default is zero, and `write_value`.
    unfoldable pub read_value : Client Chan → ℕ → ℕ → ℕ → Outcome Chan (List ℕ)
    unfolding read_exact
    read_value c index_group index_offset size =
        read_exact c index_group index_offset (replicate size 0)

    unfoldable pub write_value : Client Chan → ℕ → ℕ → List ℕ → Outcome Chan (Unit {0})
    unfolding write
    write_value c index_group index_offset value = write c index_group index_offset value

    unfoldable pub read_write : Client Chan → ℕ → ℕ → List ℕ → List ℕ → Outcome Chan (ℕ × List ℕ)
    read_write c index_group index_offset buf bytes =
        checked c (all_fit (length buf ∷ length bytes ∷ [])) (
          then_result
            (communicate c Command.read_write
              (index_length_rw_bytes index_group index_offset (length buf) (length bytes)
                ∷ bytes
                ∷ [])
              (replicate 4 0 ∷ buf ∷ []))
            (λ (n, bufs). ok (le_value (nth_buf 0 bufs), nth_buf 1 bufs)))

    unfoldable pub read_write_exact : Client Chan → ℕ → ℕ → List ℕ → List ℕ → Outcome Chan (List ℕ)
    unfolding read_write
    read_write_exact c index_group index_offset buf bytes =
        then_result (read_write c index_group index_offset buf bytes) (λ (len, filled).
          if len == length buf
          then ok filled
          else err (Error.reply "write/read data" "got less data than expected" len))

    unfoldable pub read_state : Client Chan → Outcome Chan AdsStateInfo
    unfolding state_info
    read_state c =
        then_result (communicate c Command.read_state [] (replicate 4 0 ∷ [])) (λ (n, bufs).
          let code = le_value (take 2 (nth_buf 0 bufs)) in
          state_info code (le_value (take 2 (drop 2 (nth_buf 0 bufs)))) (try_from code))

    unfoldable pub write_control : Client Chan → AdsState → ℕ → Outcome Chan (Unit {0})
    write_control c ads_state dev_state =
        then_result
          (communicate c Command.write_control
            (write_control_bytes (state_code ads_state) dev_state 0 ∷ []) [])
          (λ r. ok tt)

    -- `add_notification`, whose channel has the sender `sender`.
    unfoldable pub add_notification :
        Client Chan → ℕ → ℕ → NotificationAttributes → Chan → Outcome Chan ℕ
    add_notification c index_group index_offset attributes sender =
        checked c
          (all_fit (attributes.length_of_data ∷ attributes.max_delay ∷ attributes.cycle_time ∷ []))
          (then_step
            (communicate c Command.add_notification
              (add_notif_bytes index_group index_offset attributes.length_of_data
                  (trans_mode_code attributes.trans_mode) attributes.max_delay attributes.cycle_time
                ∷ [])
              (replicate 4 0 ∷ []))
            (λ c (n, bufs).
              let handle = le_value (nth_buf 0 bufs) in
              subscribed c handle (subscribe c.shared handle sender)))

    unfoldable pub delete_notification : Client Chan → ℕ → Outcome Chan (Unit {0})
    delete_notification c handle =
        then_step (communicate c Command.delete_notification (le_bytes 4 handle ∷ []) []) (λ c r. (
          record c {
            shared = record c.shared { subscribers = remove handle c.shared.subscribers };
          },
          ok tt,
        ))

    -- The loop of `close`: an error of a deletion is ignored, and a panic ends `close`.
    abbrev pub deleted :
        (Client Chan → Client Chan × Returns (Unit {0}))
        → Outcome Chan (Unit {0})
        → Client Chan × Returns (Unit {0})
    deleted next (c, ok u) = next c
    deleted next (c, err e) = next c
    deleted next (c, panic) = (c, unwound)

    unfoldable pub delete_all : Client Chan → List ℕ → Client Chan × Returns (Unit {0})
    unfolding delete_notification
    delete_all c [] = (c, finished tt)
    delete_all c (handle ∷ handles) =
        deleted (λ c. delete_all c handles) (delete_notification c handle)

    -- The end of `close`.
    abbrev pub closing : Bool → Client Chan × Returns (Unit {0}) → Closing Chan
    closing source_port_opened (c, finished u) =
        let (s, sent) = tear_down c.shared Error.disconnected in
        (
          record c { shared = s },
          finished ((if source_port_opened then close_port_message c.source.port else []), sent),
        )
    closing source_port_opened (c, unwound) = (c, unwound)

    unfoldable pub close : Client Chan → Bool → Closing Chan
    unfolding delete_all
    close c source_port_opened =
        closing source_port_opened (delete_all c (keys c.shared.subscribers))
