-- ===== src/Client/Lifecycle/Runs.antt =====
-- Examples of runs of interleaved steps, and of calls that nobody answers.
use openstar_ads.Common.{ℕ, ◌≡◌, ◌≢◌, ◌<◌, refl, List, [], ◌∷◌, true, none, some, All, arith}
use openstar_ads.Common.Map.{get}
use openstar_ads.Error.{Error, ok, clone}
use openstar_ads.Protocol.{Command}
use openstar_ads.Client.{register, is_closed}
use openstar_ads.Client.Buffers.{total_length}
use openstar_ads.Client.Request.{elapsed, start, timed_out, request_header}
use openstar_ads.Client.Communicate.{communicate}
use openstar_ads.Client.Communicate.Silence.{Request, Fits, silent, silent_lem, communicate-gone}
use openstar_ads.Client.Lifecycle.{
  begin_call, lose_step, drain_step, clear_step, Event, begin, lose, drain, clear, run, step, init,
  contains,
}
use openstar_ads.Client.Lifecycle.Settled.{settled}
use openstar_ads.Client.Samples.{fresh, read_request}

communicate-gone_example :
    get 1
      (communicate fresh Command.read read_request
        ((0 ∷ []) ∷ [])
        0
        (ok tt)
        elapsed).client.shared.commands
    ≡ none
unfolding get
communicate-gone_example =
    communicate-gone fresh Command.read read_request ((0 ∷ []) ∷ []) 0 (ok tt) elapsed refl

abbrev request : Request
request = record { command = Command.read; payload = read_request; bufs = (0 ∷ []) ∷ []; slot = 0 }

silent_lem_example :
    (3 < 3
      → ((silent fresh (request ∷ request ∷ request ∷ [])).shared.closed ≡ none)
        × ((silent fresh (request ∷ request ∷ request ∷ [])).consecutive_timeouts ≡ 3))
    × (◌≡◌ {A = ℕ} 3 3
        → (silent fresh (request ∷ request ∷ request ∷ [])).shared
          ≡ record { commands = []; subscribers = []; closed = some (clone timed_out) })
silent_lem_example =
    silent_lem fresh request (request ∷ request ∷ []) refl
      (request_fits, (request_fits, (request_fits, tt)))
  where
    request_fits : Fits request
    request_fits = unfold total_length in omega arith

-- A call starts, the connection is lost, and the answers are sent.
abbrev lost : List Event
lost = begin Command.read read_request ∷ lose Error.disconnected ∷ drain ∷ clear ∷ []

lost_closed : (run (init fresh) lost).client.shared.closed ≢ none
unfolding run step begin_call start request_header total_length register is_closed lose_step
    drain_step clear_step
lost_closed = λ p. cc

lost_quiet : (run (init fresh) lost).draining ≡ none
unfolding run step begin_call start request_header total_length register is_closed lose_step
    drain_step clear_step
lost_quiet = refl

settled_example :
    ((run (init fresh) lost).client.shared.commands ≡ [])
    × All
        (λ call. contains call.slot (run (init fresh) lost).answered ≡ true)
        (run (init fresh) lost).live
settled_example = settled fresh lost refl (omega arith) lost_closed lost_quiet
