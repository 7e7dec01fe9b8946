-- ===== src/Client/Lifecycle/Settled.antt =====
-- Runs of the interleaved steps: the invariant holds along them, and no call is left waiting.
use openstar_ads.Common.{
  ℕ, ◌+◌, ◌^◌, ◌%◌, ◌≤◌, ◌<◌, ◌≡◌, ◌≢◌, inl, inr, refl, List, [], ◌∷◌, Bool, true, false, Option,
  none, some, arith, All, Bool-cases, length,
}
use openstar_ads.Common.Map.{get}
use openstar_ads.Error.{Error}
use openstar_ads.Protocol.{Command}
use openstar_ads.Client.{Client, is_closed, drop_pending}
use openstar_ads.Client.Calls.{start_lem}
use openstar_ads.Client.Lifecycle.{
  Call, World, Event, begin, deliver_reply, finish, lose, drain, clear, contains, has_call,
  begin_call, take_reply, lose_step, drain_step, clear_step, step, run, init,
}
use openstar_ads.Client.Lifecycle.Invariant.{Inv, Served, step-Inv}

Served-answered :
    (m : List (ℕ × ℕ)) (answered : List ℕ) (cs : List Call)
    → m ≡ []
    → Served m answered cs
    → All (λ c. contains c.slot answered ≡ true) cs
unfolding get
Served-answered m answered [] e s = tt
Served-answered m answered (c ∷ cs) e s = (
  elim s.0 [ inl pending ↦ cc (rw e at pending) | inr done ↦ done ],
  Served-answered m answered cs e s.1,
)

module _ {Chan : Type 0} where
  begin_call-id :
      (w : World Chan) (cmd : Command) (payload : List (List ℕ))
      → w.client.invoke_id + 1 < 2 ^ 32
      → (begin_call w cmd payload).client.invoke_id ≤ w.client.invoke_id + 1
  unfolding begin_call
  begin_call-id w cmd payload room =
      let next : (w.client.invoke_id + 1) % 2 ^ 32 ≡ w.client.invoke_id + 1 = omega arith in
      elim (start_lem w.client cmd payload w.requests) [
        | inl (fits, open_now, e) ↦ rw (e, next) (omega arith)
        | inr (inl (long, e)) ↦ rw (e, next) (omega arith)
        | inr (inr (fits, ended, e)) ↦ rw (e, next) (omega arith)
      ]

  take_reply-id :
      (w : World Chan) (id : ℕ) (o : Option ℕ)
      → (take_reply w id o).client.invoke_id ≡ w.client.invoke_id
  unfolding take_reply
  take_reply-id w id none = refl
  take_reply-id w id (some slot) = refl

  drain_step-id :
      (w : World Chan) (o : Option Error) → (drain_step w o).client.invoke_id ≡ w.client.invoke_id
  unfolding drain_step
  drain_step-id w none = refl
  drain_step-id w (some e) = refl

  clear_step-id :
      (w : World Chan) (b : Bool) → (clear_step w b).client.invoke_id ≡ w.client.invoke_id
  unfolding clear_step
  clear_step-id w false = refl
  clear_step-id w true = refl

  -- A step takes one invoke ID at most.
  step-id :
      (w : World Chan) (e : Event)
      → w.client.invoke_id + 1 < 2 ^ 32
      → (step w e).client.invoke_id ≤ w.client.invoke_id + 1
  unfolding step lose_step drop_pending
  step-id w (begin cmd payload) room = begin_call-id w cmd payload room
  step-id w (deliver_reply id) room =
      rw (take_reply-id w id (get id w.client.shared.commands)) (omega arith)
  step-id w (finish id) room = elim (Bool-cases (has_call id w.live)) [
    | inl e ↦ rw e (omega arith)
    | inr e ↦ rw e (omega arith)
  ]
  step-id w (lose e) room = elim (Bool-cases (is_closed w.client.shared)) [
    | inl ended ↦ rw ended (omega arith)
    | inr open_now ↦ rw open_now (omega arith)
  ]
  step-id w drain room = rw (drain_step-id w w.draining) (omega arith)
  step-id w clear room = rw (clear_step-id w w.clearing) (omega arith)

  run-Inv :
      (w : World Chan) (es : List Event)
      → w.client.invoke_id + length es < 2 ^ 32
      → Inv w
      → Inv (run w es)
  unfolding run
  run-Inv w [] room inv = inv
  run-Inv w (e ∷ es) room inv =
      let one : w.client.invoke_id + 1 < 2 ^ 32 = omega arith in
      let le = step-id w e one in run-Inv (step w e) es (omega arith) (step-Inv w e one inv)

  init-Inv : (c : Client Chan) → c.shared.commands ≡ [] → Inv (init c)
  init-Inv c e = record {
    ids_fall = tt;
    served = tt;
    drained = λ ended quiet. e;
    draining_closed = λ busy. absurd (busy refl);
  }

  -- From a client with no pending request, whatever its calls, its reader and its guards do and in
  -- whatever order, and while the invoke IDs do not wrap: once the connection is closed and the
  -- requests were taken for their answers, no request is pending, and every call that still waits
  -- has been answered.
  pub settled :
      (c : Client Chan) (es : List Event)
      → c.shared.commands ≡ []
      → c.invoke_id + length es < 2 ^ 32
      → (run (init c) es).client.shared.closed ≢ none
      → (run (init c) es).draining ≡ none
      → ((run (init c) es).client.shared.commands ≡ [])
        × All (λ call. contains call.slot (run (init c) es).answered ≡ true) (run (init c) es).live
  settled c es idle room ended quiet =
      let w = run (init c) es in
      let inv = run-Inv (init c) es room (init-Inv c idle) in
      let none_pending = inv.drained ended quiet in
      (
        none_pending,
        Served-answered w.client.shared.commands w.answered w.live none_pending inv.served,
      )
