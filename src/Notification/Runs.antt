-- ===== src/Notification/Runs.antt =====
-- Examples of notification messages.
use openstar_ads.Common.{ℕ, ◌≡◌, refl, List, [], ◌∷◌, ◌++◌, length, replicate, All, arith, some}
use openstar_ads.Error.{ok}
use openstar_ads.Wire.{IsByte, le_bytes}
use openstar_ads.Notification.{Notification, new, all_samples}
use openstar_ads.Notification.Stamps.{Stamp, IsStamp, encode_stamps, encode_entries}
use openstar_ads.Notification.Iterate.{stamp_samples}
use openstar_ads.Notification.Correct.{Holds, new-Holds, complete, all_samples-new}
use openstar_ads.Notification.Total.{OkOrEof, new_answers}

-- One stamp at time 7, with the value 1 2 of handle 5.
abbrev one_stamp : List Stamp
one_stamp =
    record { timestamp = 7; entries = record { handle = 5; payload = 1 ∷ 2 ∷ [] } ∷ [] } ∷ []

abbrev one_message : List ℕ
one_message =
    replicate 42 0
    ++ (1 ∷ 0 ∷ 0 ∷ 0 ∷ 7 ∷ 0 ∷ 0 ∷ 0 ∷ 0 ∷ 0 ∷ 0 ∷ 0 ∷ 1 ∷ 0 ∷ 0 ∷ 0 ∷ 5 ∷ 0 ∷ 0 ∷ 0 ∷ 2 ∷ 0 ∷ 0
        ∷ 0 ∷ 1 ∷ 2 ∷ [])

one_stamp-IsStamp : All IsStamp one_stamp
one_stamp-IsStamp = (
  record {
    timestamp_fits = omega arith;
    count_fits = omega arith;
    entries_fit = (record { handle_fits = omega arith; length_fits = omega arith }, tt);
  },
  tt,
)

one_message-IsByte : All IsByte one_message
one_message-IsByte = omega arith

one_message-Holds : Holds one_message one_stamp
unfolding encode_stamps encode_entries le_bytes
one_message-Holds = (omega arith, refl, omega arith, one_stamp-IsStamp)

one_notification : new one_message ≡ ok (record { bytes = one_message; nstamps = 1 })
one_notification = complete one_message one_stamp one_message-Holds

new-Holds_example :
    ((n : Notification)
      → new one_message ≡ ok n
      → (ss : List Stamp) × Holds one_message ss
        × (n ≡ record { bytes = one_message; nstamps = length ss }))
    × ((ss : List Stamp)
        → Holds one_message ss
        → new one_message ≡ ok (record { bytes = one_message; nstamps = length ss }))
new-Holds_example = new-Holds one_message one_message-IsByte

all_samples-new_example :
    (ss : List Stamp) × Holds one_message ss
    × (all_samples (record { bytes = one_message; nstamps = 1 }) ≡ ok (some (stamp_samples ss)))
all_samples-new_example =
    all_samples-new one_message (record { bytes = one_message; nstamps = 1 }) one_message-IsByte
      one_notification

new_answers_example : OkOrEof (new (1 ∷ 2 ∷ 3 ∷ []))
new_answers_example = new_answers (1 ∷ 2 ∷ 3 ∷ [])
