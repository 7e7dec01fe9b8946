-- ===== src/Notification.antt =====
-- src/core/notification.rs: the notification message of an ADS server, its validation and its samples.
pub mod Stamps
pub mod Parse
pub mod Iterate
pub mod Correct
pub mod Total
mod Runs
use openstar_ads.Common.{
  ℕ, zero, suc, ◌+◌, ◌-◌, String, List, [], ◌∷◌, Bool, true, false, Option, none, some, ltb, leb,
  if◌then◌else◌, length, drop,
}
use openstar_ads.Error.{Result, ok, err, panic, ◌>>=◌, ◌>>◌, guard, expect, eof}
use openstar_ads.Wire.{read_uint, split_at}
use openstar_ads.Protocol.{ads_header_size}

-- `NotificationTransmissionMode`, and its number on the wire.
pub data NotificationTransmissionMode : Type 0 where
  no_trans server_cycle server_on_change : NotificationTransmissionMode

unfoldable pub trans_mode_code : NotificationTransmissionMode → ℕ
trans_mode_code no_trans = 0
trans_mode_code server_cycle = 3
trans_mode_code server_on_change = 4

-- `NotificationAttributes`; the durations are in milliseconds.
pub record NotificationAttributes : Type 0 where
  pub length_of_data : ℕ
  pub trans_mode : NotificationTransmissionMode
  pub max_delay : ℕ
  pub cycle_time : ℕ

pub record Notification : Type 0 where
  pub bytes : List ℕ
  pub nstamps : ℕ

abbrev pub parsing : String
parsing = "parsing notification"

-- The inner loop of `Notification::new`: the slice behind `n` samples. A slice that begins behind the
-- end panics, here and in `new`.
unfoldable pub skip_samples : ℕ → List ℕ → Result (List ℕ)
skip_samples zero ptr = ok ptr
skip_samples (suc n) ptr = do
  (handle, ptr) ← read_uint parsing 4 ptr
  (len, ptr) ← read_uint parsing 4 ptr
  let rest = do (skipped, ptr) ← split_at len ptr; skip_samples n ptr
  if leb len (length ptr) then rest else err (eof parsing)

-- The outer loop: the slice behind `n` stamps.
unfoldable pub skip_stamps : ℕ → List ℕ → Result (List ℕ)
skip_stamps zero ptr = ok ptr
skip_stamps (suc n) ptr = do
  (timestamp, ptr) ← read_uint parsing 8 ptr
  (nsamples, ptr) ← read_uint parsing 4 ptr
  ptr ← skip_samples nsamples ptr
  skip_stamps n ptr

abbrev pub is_empty : List ℕ → Bool
is_empty [] = true
is_empty (b ∷ ptr) = false

-- `Notification::new`.
unfoldable pub new : List ℕ → Result Notification
new msg = do
  guard (leb (ads_header_size + 8) (length msg)) (eof parsing)
  (front, ptr) ← split_at (ads_header_size + 4) msg
  (nstamps, ptr) ← read_uint parsing 4 ptr
  ptr ← skip_stamps nstamps ptr
  if is_empty ptr then ok (record { bytes = msg; nstamps = nstamps }) else err (eof parsing)

-- `Sample`.
pub record Sample : Type 0 where
  pub handle : ℕ
  pub timestamp : ℕ
  pub payload : List ℕ

-- `SampleIter`.
pub record SampleIter : Type 0 where
  pub remaining : List ℕ
  pub cur_timestamp : ℕ
  pub stamps_left : ℕ
  pub samples_left : ℕ

-- `Notification::samples`; slicing off the first 46 bytes panics where there are fewer.
unfoldable pub samples : Notification → Result SampleIter
samples n = do
  (front, rest) ← split_at 46 n.bytes
  ok (record { remaining = rest; cur_timestamp = 0; stamps_left = n.nstamps; samples_left = 0 })

-- `SampleIter::next` over the iterator's four fields. It calls itself where a stamp begins; a
-- `none` leaves the iterator as it was.
unfoldable pub next_from : ℕ → ℕ → ℕ → List ℕ → Result (Option (Sample × SampleIter))
next_from stamps_left (suc n) timestamp ptr = do
  (handle, ptr) ← expect (read_uint "size" 4 ptr)
  (len, ptr) ← expect (read_uint "size" 4 ptr)
  (payload, rest) ← split_at len ptr
  ok (
      some (
        record { handle = handle; timestamp = timestamp; payload = payload },
        record {
          remaining = rest;
          cur_timestamp = timestamp;
          stamps_left = stamps_left;
          samples_left = n;
        },
      ))
next_from (suc k) zero timestamp ptr = do
  (timestamp, ptr) ← expect (read_uint "size" 8 ptr)
  (nsamples, ptr) ← expect (read_uint "size" 4 ptr)
  next_from k nsamples timestamp ptr
next_from zero zero timestamp ptr = ok none

unfoldable pub next : SampleIter → Result (Option (Sample × SampleIter))
next it = next_from it.stamps_left it.samples_left it.cur_timestamp it.remaining

-- `for sample in it`: the samples until `next` gives `none`. The second `none` says that the fuel
-- ran out.
unfoldable pub collect : ℕ → SampleIter → Result (Option (List Sample))
collect zero it = ok none
collect (suc fuel) it = do
  step ← next it
  elim step [
    | none ↦ ok (some [])
    | some (s, it) ↦ do
      more ← collect fuel it
      ok (elim more [ none ↦ none | some rest ↦ some (s ∷ rest) ])
  ]

-- All samples of a notification, as a `for` loop over `samples` sees them.
unfoldable pub all_samples : Notification → Result (Option (List Sample))
all_samples n = do it ← samples n; collect (length n.bytes) it
