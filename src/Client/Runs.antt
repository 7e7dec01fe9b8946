-- ===== src/Client/Runs.antt =====
-- Examples of replies and of the commands that read them.
use openstar_ads.Common.{
  ℕ, ◌≡◌, ◌≢◌, ◌↔◌, ◌<◌, ◌≤◌, refl, map, [], ◌∷◌, ◌++◌, true, none, some, length, take, drop, arith,
  replicate,
}
use openstar_ads.Common.Map.{get, keys}
use openstar_ads.Error.{Error, ok, err, panic}
use openstar_ads.Wire.{le_value}
use openstar_ads.Protocol.{Command}
use openstar_ads.Notification.{NotificationAttributes, server_cycle}
use openstar_ads.Client.Buffers.{total_length, concat, distribute, distribute_lem}
use openstar_ads.Client.Reply.{process_reply}
use openstar_ads.Client.Accepted.{Answers, Delivers, process_reply-ok, process_reply-panic}
use openstar_ads.Client.Commands.{
  unwound, read, read_exact, close, add_notification, delete_notification,
}
use openstar_ads.Client.Commands.Reads.{replying, read_payload, read_lem, read_exact_lem}
use openstar_ads.Client.Commands.Subscriptions.{granting, ClosedBy, close-start, add-delete}
use openstar_ads.Client.Setup.{choose_source, no_timeouts, done, ctx}
use openstar_ads.Client.Samples.{plc, fresh, busy, reply_header, reply_header-Answers}

distribute_lem_example :
    (map length (distribute (1 ∷ 2 ∷ 3 ∷ []) ((0 ∷ 0 ∷ []) ∷ (7 ∷ 8 ∷ 9 ∷ []) ∷ [])) ≡ 2 ∷ 3 ∷ [])
    × (concat (distribute (1 ∷ 2 ∷ 3 ∷ []) ((0 ∷ 0 ∷ []) ∷ (7 ∷ 8 ∷ 9 ∷ []) ∷ []))
        ≡ take (total_length ((0 ∷ 0 ∷ []) ∷ (7 ∷ 8 ∷ 9 ∷ []) ∷ [])) (1 ∷ 2 ∷ 3 ∷ [])
          ++ drop 3 (concat ((0 ∷ 0 ∷ []) ∷ (7 ∷ 8 ∷ 9 ∷ []) ∷ [])))
distribute_lem_example = distribute_lem (1 ∷ 2 ∷ 3 ∷ []) ((0 ∷ 0 ∷ []) ∷ (7 ∷ 8 ∷ 9 ∷ []) ∷ [])

process_reply-ok_example :
    (process_reply plc Command.read 1 (reply_header 4) (0 ∷ 0 ∷ 0 ∷ 0 ∷ []) [] ≡ ok (0, [])) ↔ (
      Answers plc Command.read 1 (reply_header 4)
      × (4 ≤ 4)
      × (le_value (take 4 (0 ∷ 0 ∷ 0 ∷ 0 ∷ [])) ≡ 0)
      × Delivers (0 ∷ 0 ∷ 0 ∷ 0 ∷ []) [] (0, []))
process_reply-ok_example =
    process_reply-ok plc Command.read 1 (reply_header 4) (0 ∷ 0 ∷ 0 ∷ 0 ∷ []) [] (0, [])

process_reply-panic_example :
    (process_reply plc Command.read 1 (reply_header 2) (0 ∷ 0 ∷ []) [] ≡ panic)
    ↔ (Answers plc Command.read 1 (reply_header 2) × (2 < 4))
process_reply-panic_example =
    process_reply-panic plc Command.read 1 (reply_header 2) (0 ∷ 0 ∷ []) []

-- The reply of two bytes does answer the request, so the call panics.
short_reply_panics : process_reply plc Command.read 1 (reply_header 2) (0 ∷ 0 ∷ []) [] ≡ panic
short_reply_panics =
    (process_reply-panic plc Command.read 1 (reply_header 2) (0 ∷ 0 ∷ []) []).1
      (reply_header-Answers 2, omega arith)

read_lem_example :
    read
      (replying 1 (reply_header 10) (read_payload 2 (7 ∷ 9 ∷ [])))
      fresh
      0x4020
      0
      (0 ∷ 0 ∷ 0 ∷ 0 ∷ [])
    ≡ (fresh, ok (2, 7 ∷ 9 ∷ 0 ∷ 0 ∷ []))
read_lem_example =
    read_lem fresh 1 (reply_header 10) 0x4020 0 2 (7 ∷ 9 ∷ []) (0 ∷ 0 ∷ 0 ∷ 0 ∷ [])
      (reply_header-Answers 10) (omega arith) (omega arith)

-- The device names four bytes and sends two.
read_exact_lem_example :
    let outcome =
      read_exact
        (replying 1 (reply_header 10) (read_payload 4 (7 ∷ 9 ∷ [])))
        fresh
        0x4020
        0
        (0 ∷ 0 ∷ 0 ∷ 0 ∷ []) in
    (◌≡◌ {A = ℕ} 4 4 → outcome ≡ (fresh, ok (7 ∷ 9 ∷ 0 ∷ 0 ∷ [])))
    × (◌≢◌ {A = ℕ} 4 4
        → outcome ≡ (fresh, err (Error.reply "read data" "got less data than expected" 4)))
read_exact_lem_example =
    read_exact_lem fresh 1 (reply_header 10) 0x4020 0 4 (7 ∷ 9 ∷ []) (0 ∷ 0 ∷ 0 ∷ 0 ∷ [])
      (reply_header-Answers 10) (omega arith) (omega arith)

close-start_example :
    ClosedBy
      (granting {Chan = ℕ} 0)
      (keys busy.subscribers)
      (close (granting {Chan = ℕ} 0) (record fresh { shared = busy }) true)
close-start_example = close-start (granting 0) (record fresh { shared = busy }) true

-- A deletion whose exchange panics.
close_unwinds :
    (close (λ c cmd payload bufs. (c, panic)) (record fresh { shared = busy }) true).1 ≡ unwound
unfolding close openstar_ads.Client.Commands.delete_all delete_notification
close_unwinds = refl

abbrev cyclic : NotificationAttributes
cyclic = record { length_of_data = 4; trans_mode = server_cycle; max_delay = 0; cycle_time = 100 }

add-delete_example :
    let (added, r) =
      add_notification (granting 6) (record fresh { shared = busy }) 0x4020 0 cyclic 0 in
    let deleted = (delete_notification (granting 6) added 6).0 in
    (r ≡ ok 6)
    × (get 6 added.shared.subscribers ≡ some 0)
    × (get 6 deleted.shared.subscribers ≡ none)
    × ((j : ℕ) → j ≢ 6 → get j deleted.shared.subscribers ≡ get j busy.subscribers)
add-delete_example =
    add-delete (record fresh { shared = busy }) 0x4020 0 6 cyclic 0 refl (omega arith) refl

-- The router answers a port request with six bytes only: the source is then all zero.
short_reply :
    choose_source no_timeouts
      (record {
        connecting = record { after = 1; result = done tt };
        nodelay = done tt;
        writing = record { after = 1; result = done tt };
        reading = record { after = 1; result = done (0 ∷ 16 ∷ 8 ∷ 0 ∷ 0 ∷ 0 ∷ []) };
      })
      none
    ≡ ok (record { netid = record { octets = replicate 6 0 }; port = 0 }, true)
unfolding choose_source ctx openstar_ads.Client.Commands.requested_source openstar_ads.Wire.le_value
    openstar_ads.NetId.same_octets
short_reply = refl
