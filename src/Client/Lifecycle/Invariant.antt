-- ===== src/Client/Lifecycle/Invariant.antt =====
-- The invariant of the interleaved steps: every waiting call is pending or answered.
use openstar_ads.Common.{
  ℕ, ◌+◌, ◌^◌, ◌%◌, ◌≤◌, ◌<◌, ◌≡◌, ◌≢◌, ◌⊎◌, inl, inr, refl, ap, ◌∙◌, List, [], ◌∷◌, ◌++◌, Bool,
  true, false, Option, none, some, arith, Bool-cases, ==_refl,
}
use openstar_ads.Common.Map.{get, insert, remove, get-insert, get-remove}
use openstar_ads.Error.{Error}
use openstar_ads.Protocol.{Command}
use openstar_ads.Client.{is_closed, drop_pending}
use openstar_ads.Client.Calls.{start_lem}
use openstar_ads.Client.Lifecycle.{
  Call, World, Event, begin, deliver_reply, finish, lose, drain, clear, contains, slots, has_call,
  without_call, begin_call, take_reply, lose_step, drain_step, clear_step, step,
}

-- Invoke IDs fall along the calls and stay below the next one.
abbrev pub Below : ℕ → List Call → Type 0
Below n [] = Unit {0}
Below n (c ∷ cs) = (c.id < n) × Below c.id cs

-- A waiting call is pending under its invoke ID, or it was answered.
abbrev pub Served : List (ℕ × ℕ) → List ℕ → List Call → Type 0
Served commands answered [] = Unit {0}
Served commands answered (c ∷ cs) =
    ((get c.id commands ≡ some c.slot) ⊎ (contains c.slot answered ≡ true))
    × Served commands answered cs

pub record Inv {Chan : Type 0} (w : World Chan) : Type 0 where
  pub ids_fall : Below w.client.invoke_id w.live
  pub served : Served w.client.shared.commands w.answered w.live
  pub drained : w.client.shared.closed ≢ none → w.draining ≡ none → w.client.shared.commands ≡ []
  pub draining_closed : w.draining ≢ none → w.client.shared.closed ≢ none

Below-mono : (m n : ℕ) (cs : List Call) → m ≤ n → Below m cs → Below n cs
Below-mono m n [] h b = tt
Below-mono m n (c ∷ cs) h b = (omega arith, b.1)

Below-without_call : (id n : ℕ) (cs : List Call) → Below n cs → Below n (without_call id cs)
Below-without_call id n [] b = tt
Below-without_call id n (c ∷ cs) b =
    ground (arith, Below-without_call id c.id cs b.1, Below-mono c.id n (without_call id cs))

-- A request at a fresh invoke ID leaves the others where they are.
Served-insert :
    (id slot : ℕ) (m : List (ℕ × ℕ)) (answered : List ℕ) (cs : List Call)
    → Below id cs
    → Served m answered cs
    → Served (insert id slot m) answered cs
Served-insert id slot m answered [] b s = tt
Served-insert id slot m answered (c ∷ cs) b s = ground (
  arith,
  get-insert id c.id slot m,
  Served-insert id slot m answered cs (Below-mono c.id id cs (omega arith) b.1) s.1,
)

Served-reply :
    (id slot : ℕ) (m : List (ℕ × ℕ)) (answered : List ℕ) (cs : List Call)
    → get id m ≡ some slot
    → Served m answered cs
    → Served (remove id m) (slot ∷ answered) cs
Served-reply id slot m answered [] e s = tt
Served-reply id slot m answered (c ∷ cs) e s =
    ground (arith, get-remove id c.id m, Served-reply id slot m answered cs e s.1)

Served-finish :
    (id : ℕ) (m : List (ℕ × ℕ)) (answered : List ℕ) (cs : List Call)
    → Served m answered cs
    → Served (remove id m) answered (without_call id cs)
Served-finish id m answered [] s = tt
Served-finish id m answered (c ∷ cs) s =
    ground (arith, get-remove id c.id m, Served-finish id m answered cs s.1)

contains-append_left :
    (k : ℕ) (xs ys : List ℕ) → contains k xs ≡ true → contains k (xs ++ ys) ≡ true
contains-append_left k [] ys e = cc
contains-append_left k (x ∷ xs) ys e = ground (arith, contains-append_left k xs ys)

contains-append_right :
    (k : ℕ) (xs ys : List ℕ) → contains k ys ≡ true → contains k (xs ++ ys) ≡ true
contains-append_right k [] ys e = e
contains-append_right k (x ∷ xs) ys e = ground (arith, contains-append_right k xs ys)

contains-slots :
    (id slot : ℕ) (m : List (ℕ × ℕ)) → get id m ≡ some slot → contains slot (slots m) ≡ true
unfolding get
contains-slots id slot [] e = cc
contains-slots id slot ((j, s) ∷ m) e = ground (arith, contains-slots id slot m)

Served-drain :
    (m : List (ℕ × ℕ)) (answered : List ℕ) (cs : List Call)
    → Served m answered cs
    → Served [] (slots m ++ answered) cs
Served-drain m answered [] s = tt
Served-drain m answered (c ∷ cs) s = (
  inr (elim s.0 [
    | inl pending ↦
        contains-append_left c.slot (slots m) answered (contains-slots c.id c.slot m pending)
    | inr done ↦ contains-append_right c.slot (slots m) answered done
  ]),
  Served-drain m answered cs s.1,
)

module _ {Chan : Type 0} where
  begin_call-Inv :
      (w : World Chan) (cmd : Command) (payload : List (List ℕ))
      → w.client.invoke_id + 1 < 2 ^ 32
      → Inv w
      → Inv (begin_call w cmd payload)
  unfolding begin_call
  begin_call-Inv w cmd payload room inv =
      let id = w.client.invoke_id in
      let next : (id + 1) % 2 ^ 32 ≡ id + 1 = omega arith in
      let later : Below (id + 1) w.live =
        Below-mono id (id + 1) w.live (omega arith) inv.ids_fall in
      elim (start_lem w.client cmd payload w.requests) [
        | inl (fits, open_now, e) ↦
            rw (e, next)
              (record {
                ids_fall = (omega arith, inv.ids_fall);
                served = (
                  inl (get-insert id id w.requests w.client.shared.commands ∙ rw (==_refl id)),
                  Served-insert id w.requests w.client.shared.commands w.answered w.live
                      inv.ids_fall inv.served,
                );
                drained = λ ended. absurd (ended open_now);
                draining_closed = inv.draining_closed;
              })
        | inr (inl (long, e)) ↦
            rw (e, next)
              (record {
                ids_fall = later;
                served = inv.served;
                drained = inv.drained;
                draining_closed = inv.draining_closed;
              })
        | inr (inr (fits, ended, e)) ↦
            rw (e, next)
              (record {
                ids_fall = later;
                served = inv.served;
                drained = inv.drained;
                draining_closed = inv.draining_closed;
              })
      ]

  take_reply-Inv :
      (w : World Chan) (id : ℕ) (o : Option ℕ)
      → get id w.client.shared.commands ≡ o
      → Inv w
      → Inv (take_reply w id o)
  unfolding take_reply remove
  take_reply-Inv w id none e inv = inv
  take_reply-Inv w id (some slot) e inv = record {
    ids_fall = inv.ids_fall;
    served = Served-reply id slot w.client.shared.commands w.answered w.live e inv.served;
    drained = λ ended quiet. ap (remove id) (inv.drained ended quiet);
    draining_closed = inv.draining_closed;
  }

  finish-Inv : (w : World Chan) (id : ℕ) → Inv w → Inv (step w (finish id))
  unfolding step drop_pending remove
  finish-Inv w id inv = elim (Bool-cases (has_call id w.live)) [
    | inr absent ↦ rw absent inv
    | inl present ↦ rw present (record {
      ids_fall = Below-without_call id w.client.invoke_id w.live inv.ids_fall;
      served = Served-finish id w.client.shared.commands w.answered w.live inv.served;
      drained = λ ended quiet. ap (remove id) (inv.drained ended quiet);
      draining_closed = inv.draining_closed;
    })
  ]

  lose_step-Inv : (w : World Chan) (e : Error) → Inv w → Inv (lose_step w e)
  unfolding lose_step
  lose_step-Inv w e inv = elim (Bool-cases (is_closed w.client.shared)) [
    | inl ended ↦ rw ended inv
    | inr open_now ↦ rw open_now (record {
      ids_fall = inv.ids_fall;
      served = inv.served;
      drained = λ ended quiet. cc;
      draining_closed = λ busy p. cc;
    })
  ]

  drain_step-Inv :
      (w : World Chan) (o : Option Error) → w.draining ≡ o → Inv w → Inv (drain_step w o)
  unfolding drain_step
  drain_step-Inv w none e inv = inv
  drain_step-Inv w (some x) e inv = record {
    ids_fall = inv.ids_fall;
    served = Served-drain w.client.shared.commands w.answered w.live inv.served;
    drained = λ ended quiet. refl;
    draining_closed = λ busy p. busy refl;
  }

  clear_step-Inv : (w : World Chan) (b : Bool) → Inv w → Inv (clear_step w b)
  unfolding clear_step
  clear_step-Inv w false inv = inv
  clear_step-Inv w true inv = record {
    ids_fall = inv.ids_fall;
    served = inv.served;
    drained = inv.drained;
    draining_closed = inv.draining_closed;
  }

  -- Every step keeps the invariant, as long as the invoke IDs have not run through all 32 bits.
  pub step-Inv :
      (w : World Chan) (e : Event) → w.client.invoke_id + 1 < 2 ^ 32 → Inv w → Inv (step w e)
  unfolding step
  step-Inv w (begin cmd payload) room inv = begin_call-Inv w cmd payload room inv
  step-Inv w (deliver_reply id) room inv =
      take_reply-Inv w id (get id w.client.shared.commands) refl inv
  step-Inv w (finish id) room inv = finish-Inv w id inv
  step-Inv w (lose e) room inv = lose_step-Inv w e inv
  step-Inv w drain room inv = drain_step-Inv w w.draining refl inv
  step-Inv w clear room inv = clear_step-Inv w w.clearing inv
