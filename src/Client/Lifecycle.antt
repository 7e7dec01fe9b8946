-- ===== src/Client/Lifecycle.antt =====
-- src/core/client.rs: calls, replies and the end of a connection as interleaved steps. Each step
-- holds one of the locks of `Shared`; `tear_down` holds them one after the other, so it is three.
pub mod Invariant
pub mod Settled
mod Runs
use openstar_ads.Common.{
  ℕ, suc, ◌+◌, List, [], ◌∷◌, ◌++◌, Bool, true, false, Option, none, some, ◌==◌, ◌||◌,
  if◌then◌else◌,
}
use openstar_ads.Common.Map.{get, insert, remove}
use openstar_ads.Error.{Error, Result, ok, err, panic, clone}
use openstar_ads.Protocol.{Command}
use openstar_ads.Client.{Client, Shared, is_closed, drop_pending, tear_down, answers}
use openstar_ads.Client.Request.{start}

-- A call of `communicate` that has registered its request: the request's number, and its invoke ID.
pub record Call : Type 0 where
  pub slot : ℕ
  pub id : ℕ

-- The client; how many requests were made; the calls that are waiting, newest first; the requests
-- that were answered; and how far a `tear_down` has come.
pub record World (Chan : Type 0) : Type 0 where
  pub client : Client Chan
  pub requests : ℕ
  pub live : List Call
  pub answered : List ℕ
  pub draining : Option Error
  pub clearing : Bool

pub data Event : Type 0 where
  -- a call starts
  begin : Command → List (List ℕ) → Event
  -- the reader takes the request of a reply
  deliver_reply : ℕ → Event
  -- the guard of a pending request is dropped
  finish : ℕ → Event
  -- the three steps of `tear_down`
  lose : Error → Event
  drain clear : Event

abbrev pub contains : ℕ → List ℕ → Bool
contains k [] = false
contains k (x ∷ xs) = (x == k) || contains k xs

-- The requests that are pending.
abbrev pub slots : List (ℕ × ℕ) → List ℕ
slots [] = []
slots ((id, slot) ∷ m) = slot ∷ slots m

abbrev pub has_call : ℕ → List Call → Bool
has_call id [] = false
has_call id (c ∷ cs) = (c.id == id) || has_call id cs

abbrev pub without_call : ℕ → List Call → List Call
without_call id [] = []
without_call id (c ∷ cs) = if c.id == id then without_call id cs else c ∷ without_call id cs

module _ {Chan : Type 0} where
  -- A call that has started waits, and one that fails at its start is over.
  unfoldable pub begun : World Chan → Client Chan → Result (ℕ × List ℕ) → World Chan
  begun w c (ok (id, packet)) = record w {
    client = c;
    requests = w.requests + 1;
    live = record { slot = w.requests; id = id } ∷ w.live;
  }
  begun w c (err e) = record w { client = c; requests = w.requests + 1 }
  begun w c panic = record w { client = c; requests = w.requests + 1 }

  unfoldable pub begin_call : World Chan → Command → List (List ℕ) → World Chan
  unfolding begun
  begin_call w cmd payload =
      let started = start w.client cmd payload w.requests in begun w started.client started.result

  abbrev set_shared : Client Chan → Shared Chan → Client Chan
  set_shared c s = record c { shared = s }

  unfoldable pub take_reply : World Chan → ℕ → Option ℕ → World Chan
  take_reply w id none = w
  take_reply w id (some slot) = record w {
    client =
        set_shared w.client
          (record w.client.shared { commands = remove id w.client.shared.commands });
    answered = slot ∷ w.answered;
  }

  -- `send_if_modified`: the first to come here goes on.
  unfoldable pub lose_step : World Chan → Error → World Chan
  unfolding is_closed
  lose_step w e = if is_closed w.client.shared then w else record w {
    client = set_shared w.client (record w.client.shared { closed = some (clone e) });
    draining = some e;
  }

  -- `mem::take`, and the answers that are then sent.
  unfoldable pub drain_step : World Chan → Option Error → World Chan
  drain_step w none = w
  drain_step w (some e) = record w {
    client = set_shared w.client (record w.client.shared { commands = [] });
    answered = slots w.client.shared.commands ++ w.answered;
    draining = none;
    clearing = true;
  }

  unfoldable pub clear_step : World Chan → Bool → World Chan
  clear_step w false = w
  clear_step w true = record w {
    client = set_shared w.client (record w.client.shared { subscribers = [] });
    clearing = false;
  }

  unfoldable pub step : World Chan → Event → World Chan
  unfolding take_reply drain_step clear_step
  step w (begin cmd payload) = begin_call w cmd payload
  step w (deliver_reply id) = take_reply w id (get id w.client.shared.commands)
  step w (finish id) =
      if has_call id w.live
      then record w {
        client = set_shared w.client (drop_pending w.client.shared id);
        live = without_call id w.live;
      }
      else w
  step w (lose e) = lose_step w e
  step w drain = drain_step w w.draining
  step w clear = clear_step w w.clearing

  unfoldable pub run : World Chan → List Event → World Chan
  run w [] = w
  run w (e ∷ es) = run (step w e) es

  -- A client that has just connected.
  abbrev pub init : Client Chan → World Chan
  init c = record {
    client = c;
    requests = 0;
    live = [];
    answered = [];
    draining = none;
    clearing = false;
  }
