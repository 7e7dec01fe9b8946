-- ===== src/Client/Communicate/Silence.antt =====
-- How calls end: what stays pending, and when a target that does not answer ends the connection.
use openstar_ads.Common.{
  ℕ, ◌+◌, ◌^◌, ◌%◌, ◌<◌, ◌≡◌, inl, inr, refl, ◌∙◌, List, [], ◌∷◌, none, some, arith, All,
  Bool-cases, length, leb, le→leb, lt→leb_false, ==_refl,
}
use openstar_ads.Common.Map.{get, insert, remove, get-remove}
use openstar_ads.Error.{Result, ok, err, panic, clone}
use openstar_ads.Protocol.{Command}
use openstar_ads.Client.{Client, is_closed, drop_pending, tear_down}
use openstar_ads.Client.Buffers.{total_length}
use openstar_ads.Client.Request.{
  Waited, elapsed, channel_closed, replied, after_write, after_wait, timed_out,
}
use openstar_ads.Client.Calls.{start_lem, advanced}
use openstar_ads.Client.Communicate.{communicate, written, awaited}

-- A request that a program makes, and the buffers for its reply.
pub record Request : Type 0 where
  pub command : Command
  pub payload : List (List ℕ)
  pub bufs : List (List ℕ)
  pub slot : ℕ

-- A request whose packet a 32-bit length describes.
abbrev pub Fits : Request → Type 0
Fits r = 32 + total_length r.payload < 2 ^ 32

remove-gone : (id : ℕ) (m : List (ℕ × ℕ)) → get id (remove id m) ≡ none
remove-gone id m = get-remove id id m ∙ rw (==_refl id)

module _ {Chan : Type 0} where
  after_wait-gone :
      (c : Client Chan) (cmd : Command) (id : ℕ) (bufs : List (List ℕ)) (w : Waited)
      → get id (after_wait c cmd id bufs w).client.shared.commands ≡ none
  unfolding after_wait drop_pending
  after_wait-gone c cmd id bufs elapsed =
      elim (Bool-cases (leb 3 ((c.consecutive_timeouts + 1) % 2 ^ 32))) [
        | inl many ↦ rw many (remove-gone id _)
        | inr few ↦ rw few (remove-gone id _)
      ]
  after_wait-gone c cmd id bufs channel_closed = remove-gone id _
  after_wait-gone c cmd id bufs (replied (ok (h, payload))) = remove-gone id _
  after_wait-gone c cmd id bufs (replied (err e)) = remove-gone id _
  after_wait-gone c cmd id bufs (replied panic) = remove-gone id _

  -- A call leaves no pending request of its own behind, whether it fails to start, to write, or to
  -- get an answer, or succeeds.
  pub communicate-gone :
      (c : Client Chan) (cmd : Command) (payload bufs : List (List ℕ)) (slot : ℕ)
      (write : Result (Unit {0})) (w : Waited)
      → get c.invoke_id c.shared.commands ≡ none
      → get c.invoke_id (communicate c cmd payload bufs slot write w).client.shared.commands ≡ none
  unfolding communicate written awaited after_write drop_pending
  communicate-gone c cmd payload bufs slot write w fresh = elim (start_lem c cmd payload slot) [
    | inl (fits, open_now, e) ↦ rw e (by_write write)
    | inr (inl (long, e)) ↦ rw e fresh
    | inr (inr (fits, ended, e)) ↦ rw e fresh
  ]
    where
      entered : Client Chan
      entered = record (advanced c) {
        shared = record c.shared { commands = insert c.invoke_id slot c.shared.commands };
      }

      by_write :
          (result : Result (Unit {0}))
          → get c.invoke_id
              (let s = after_write entered c.invoke_id result in
                awaited cmd c.invoke_id bufs w s.client s.sent s.result).client.shared.commands
            ≡ none
      by_write (ok u) = after_wait-gone entered cmd c.invoke_id bufs w
      by_write (err x) = remove-gone c.invoke_id _
      by_write panic = remove-gone c.invoke_id _

  -- The client after calls to a target that never answers.
  abbrev pub silent : Client Chan → List Request → Client Chan
  silent c [] = c
  silent c (r ∷ rs) =
      silent (communicate c r.command r.payload r.bufs r.slot (ok tt) elapsed).client rs

  silent_call :
      (c : Client Chan) (r : Request)
      → c.shared.closed ≡ none
      → Fits r
      → c.consecutive_timeouts < 3
      → let after = (communicate c r.command r.payload r.bufs r.slot (ok tt) elapsed).client in
        (c.consecutive_timeouts + 1 < 3
          → (after.shared.closed ≡ none)
            × (after.consecutive_timeouts ≡ c.consecutive_timeouts + 1))
        × (c.consecutive_timeouts + 1 ≡ 3
            → after.shared
              ≡ record { commands = []; subscribers = []; closed = some (clone timed_out) })
  unfolding communicate written awaited after_write after_wait drop_pending tear_down is_closed
      remove clone
  silent_call c r open_now fits few =
      let count : (c.consecutive_timeouts + 1) % 2 ^ 32 ≡ c.consecutive_timeouts + 1 =
        omega arith in
      elim (start_lem c r.command r.payload r.slot) [
        | inl (_, _, e) ↦
            rw (e, count)
              (
                (λ h. rw (lt→leb_false 3 (c.consecutive_timeouts + 1) h) (open_now, refl)),
                (λ h. rw (le→leb 3 (c.consecutive_timeouts + 1) (omega arith), open_now) refl),
              )
        | inr (inl (long, e)) ↦ absurd (omega arith)
        | inr (inr (_, ended, e)) ↦ absurd (ended open_now)
      ]

  -- Calls that fit 32 bits, made one after the other on an open connection, to a target that answers
  -- none of them, after `k` unanswered ones: as long as that makes fewer than three, the connection
  -- stays open and counts them; the call that makes three ends it, with the timeout as the reason.
  pub silent_lem :
      (c : Client Chan) (r : Request) (rs : List Request)
      → c.shared.closed ≡ none
      → All Fits (r ∷ rs)
      → (c.consecutive_timeouts + length (r ∷ rs) < 3
          → ((silent c (r ∷ rs)).shared.closed ≡ none)
            × ((silent c (r ∷ rs)).consecutive_timeouts ≡ c.consecutive_timeouts + length (r ∷ rs)))
        × (c.consecutive_timeouts + length (r ∷ rs) ≡ 3
            → (silent c (r ∷ rs)).shared
              ≡ record { commands = []; subscribers = []; closed = some (clone timed_out) })
  silent_lem c r [] open_now fits = (
    (λ h. (silent_call c r open_now fits.0 (omega arith)).0 (omega arith)),
    (λ h. (silent_call c r open_now fits.0 (omega arith)).1 (omega arith)),
  )
  silent_lem c r (q ∷ rs) open_now fits =
      let next = (communicate c r.command r.payload r.bufs r.slot (ok tt) elapsed).client in
      (
        (λ h.
            let (still, count) = (silent_call c r open_now fits.0 (omega arith)).0 (omega arith) in
            let (ended, total) = (silent_lem next q rs still fits.1).0 (omega arith) in
            (ended, total ∙ omega arith)),
        (λ h.
            let (still, count) = (silent_call c r open_now fits.0 (omega arith)).0 (omega arith) in
            (silent_lem next q rs still fits.1).1 (omega arith)),
      )
