-- ===== src/Client/Commands/Refusals.antt =====
-- A client that is closed refuses each exchange, so its `close` meets no panic.
use openstar_ads.Common.{ℕ, ◌≢◌, inl, inr, refl, List, [], ◌∷◌, Bool, none}
use openstar_ads.Common.Map.{keys, remove}
use openstar_ads.Error.{Result, ok, err, panic}
use openstar_ads.Wire.{le_bytes}
use openstar_ads.Protocol.{Command}
use openstar_ads.Client.{Client}
use openstar_ads.Client.Request.{Waited}
use openstar_ads.Client.Calls.{start_lem}
use openstar_ads.Client.Communicate.{communicate, written}
use openstar_ads.Client.Commands.{
  Outcome, Exchange, then_step, Returns, finished, unwound, delete_notification, deleted,
  delete_all, closing, close,
}

module _ {Chan : Type 0} where
  -- A client that is closed still, behind no panic.
  abbrev pub Refused : {A : Type 0} → Outcome Chan A → Type 0
  Refused (c, r) = (c.shared.closed ≢ none) × (r ≢ panic)

  abbrev pub RefusesClosed : Exchange Chan → Type 0
  RefusesClosed exchange =
      (c : Client Chan) (cmd : Command) (payload bufs : List (List ℕ))
      → c.shared.closed ≢ none
      → Refused (exchange c cmd payload bufs)

  -- `communicate` does so, whatever the socket and the wait would do.
  communicate-RefusesClosed :
      (slot : ℕ) (write : Result (Unit {0})) (w : Waited)
      → RefusesClosed (λ c cmd payload bufs.
        let r = communicate c cmd payload bufs slot write w in (r.client, r.result))
  unfolding communicate written
  communicate-RefusesClosed slot write w c cmd payload bufs ended =
      elim (start_lem c cmd payload slot) [
        | inl (fits, open_now, e) ↦ absurd (ended open_now)
        | inr (inl (long, e)) ↦ rw e (ended, λ p. cc)
        | inr (inr (fits, closed, e)) ↦ rw e (ended, λ p. cc)
      ]

  module _ (exchange : Exchange Chan) (refuses : RefusesClosed exchange) where
    removed :
        (o : Outcome Chan (ℕ × List (List ℕ))) (handle : ℕ)
        → Refused o
        → Refused (
            then_step o (λ c r. (
              record c {
                shared = record c.shared { subscribers = remove handle c.shared.subscribers };
              },
              ok tt,
            )))
    removed (c, ok a) handle w = (w.0, λ p. cc)
    removed (c, err e) handle w = (w.0, λ p. cc)
    removed (c, panic) handle w = absurd (w.1 refl)

    delete_notification-Refused :
        (c : Client Chan) (handle : ℕ)
        → c.shared.closed ≢ none
        → Refused (delete_notification exchange c handle)
    unfolding delete_notification
    delete_notification-Refused c handle ended =
        removed (exchange c Command.delete_notification (le_bytes 4 handle ∷ []) []) handle
          (refuses c Command.delete_notification (le_bytes 4 handle ∷ []) [] ended)

    -- The deletions in the close of a closed client end.
    delete_all-ends :
        (handles : List ℕ) (c : Client Chan)
        → c.shared.closed ≢ none
        → (delete_all exchange c handles).1 ≢ unwound
    unfolding delete_all
    delete_all-ends [] c ended = λ p. cc
    delete_all-ends (handle ∷ handles) c ended =
        by_deletion (delete_notification exchange c handle)
          (delete_notification-Refused c handle ended) (delete_all-ends handles)
      where
        by_deletion :
            (o : Outcome Chan (Unit {0}))
            → Refused o
            → ((c : Client Chan)
                → c.shared.closed ≢ none
                → (delete_all exchange c handles).1 ≢ unwound)
            → (deleted exchange (λ c. delete_all exchange c handles) o).1 ≢ unwound
        by_deletion (c', ok u) w later = later c' w.0
        by_deletion (c', err e) w later = later c' w.0
        by_deletion (c', panic) w later = absurd (w.1 refl)

    closing-ends :
        (port_opened : Bool) (o : Client Chan × Returns (Unit {0}))
        → o.1 ≢ unwound
        → (closing exchange port_opened o).1 ≢ unwound
    closing-ends port_opened (c, finished u) ends = λ p. cc
    closing-ends port_opened (c, unwound) ends = absurd (ends refl)

    -- The close of a client that is closed already does not panic.
    pub close-ends :
        (c : Client Chan) (port_opened : Bool)
        → c.shared.closed ≢ none
        → (close exchange c port_opened).1 ≢ unwound
    unfolding close
    close-ends c port_opened ended =
        closing-ends port_opened (delete_all exchange c (keys c.shared.subscribers))
          (delete_all-ends (keys c.shared.subscribers) c ended)
