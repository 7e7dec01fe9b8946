-- ===== src/Client.antt =====
-- src/core/client.rs: the client's state, and the state that it shares with its reader task.
pub mod Buffers
pub mod Request
pub mod Reply
pub mod Accepted
pub mod Calls
pub mod Reader
pub mod Receive
pub mod Delivery
pub mod Notify
pub mod Loop
pub mod RoundTrip
pub mod Communicate
pub mod Commands
pub mod Setup
pub mod Lifecycle
mod Samples
mod Runs
mod Traces
mod Answered
use openstar_ads.Common.{
  ℕ, suc, ◌+◌, ◌%◌, ◌^◌, String, List, [], ◌∷◌, Bool, true, false, Option, none, some, leb,
  if◌then◌else◌,
}
use openstar_ads.Common.Map.{get, insert, remove}
use openstar_ads.Error.{Error, Result, ok, err, clone}
use openstar_ads.NetId.{AmsAddr}

-- `Shared`. A pending reply is named by the number of its request, and a subscriber by the channel
-- that it receives from.
pub record Shared (Chan : Type 0) : Type 0 where
  pub commands : List (ℕ × ℕ)
  pub subscribers : List (ℕ × Chan)
  pub closed : Option Error

-- `Client`, less its socket and its reader task.
pub record Client (Chan : Type 0) : Type 0 where
  pub source : AmsAddr
  pub target : AmsAddr
  pub invoke_id : ℕ
  pub consecutive_timeouts : ℕ
  pub shared : Shared Chan

abbrev pub max_consecutive_timeouts : ℕ
max_consecutive_timeouts = 3

abbrev pub is_some {ℓ} : {A : Type ℓ} → Option A → Bool
is_some none = false
is_some (some a) = true

-- The answers that `tear_down` sends: the reason, to each request that was pending.
unfoldable pub answers : Error → List (ℕ × ℕ) → List (ℕ × Error)
answers reason [] = []
answers reason ((id, slot) ∷ pending) = (slot, clone reason) ∷ answers reason pending

module _ {Chan : Type 0} where
  -- `Shared::new`.
  abbrev pub new_shared : Shared Chan
  new_shared = record { commands = []; subscribers = []; closed = none }

  -- `Shared::is_closed`.
  unfoldable pub is_closed : Shared Chan → Bool
  is_closed s = is_some s.closed

  -- `Shared::register`, for request `slot`.
  unfoldable pub register : Shared Chan → ℕ → ℕ → Result (Shared Chan)
  unfolding is_closed
  register s id slot =
      if is_closed s
      then err Error.disconnected
      else ok (record s { commands = insert id slot s.commands })

  -- `Shared::subscribe`.
  unfoldable pub subscribe : Shared Chan → ℕ → Chan → Result (Shared Chan)
  unfolding is_closed
  subscribe s handle sender =
      if is_closed s
      then err Error.disconnected
      else ok (record s { subscribers = insert handle sender s.subscribers })

  -- `PendingRequest::drop`.
  unfoldable pub drop_pending : Shared Chan → ℕ → Shared Chan
  drop_pending s id = record s { commands = remove id s.commands }

  -- `Shared::tear_down`: the new state, and the answers that are sent.
  unfoldable pub tear_down : Shared Chan → Error → Shared Chan × List (ℕ × Error)
  unfolding is_closed
  tear_down s reason = if is_closed s then (s, []) else (
    record { commands = []; subscribers = []; closed = some (clone reason) },
    answers reason s.commands,
  )
