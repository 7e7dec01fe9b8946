-- ===== src/Client/Commands/Subscriptions.antt =====
-- Notification handles over their life, and the end that `close` puts to a client.
use openstar_ads.Common.{
  ℕ, ◌⊎◌, ◌^◌, ◌<◌, ◌≡◌, ◌≢◌, inl, inr, refl, sym, ap, ◌∙◌, List, [], ◌∷◌, Bool, none, some,
  ==_refl, ==_ne,
}
use openstar_ads.Common.Map.{get, keys, get-insert, get-remove}
use openstar_ads.Error.{Error, ok, err, panic}
use openstar_ads.Wire.{le_bytes}
use openstar_ads.Wire.Laws.{le_value-le_bytes}
use openstar_ads.Protocol.{Command}
use openstar_ads.Notification.{NotificationAttributes}
use openstar_ads.Client.{Client, subscribe, is_closed, tear_down}
use openstar_ads.Client.Loop.{tear_down-closed}
use openstar_ads.Client.Request.{start}
use openstar_ads.Client.Calls.{start_lem}
use openstar_ads.Client.Commands.{
  Exchange, Outcome, Closing, Returns, finished, unwound, add_notification, delete_notification,
  deleted, delete_all, closing, close, all_fit,
}

-- A device that grants each request, and names the handle `handle`.
abbrev pub granting : {Chan : Type 0} → ℕ → Exchange Chan
granting handle c cmd payload bufs = (c, ok (4, le_bytes 4 handle ∷ []))

-- A handle is one of some handles.
abbrev pub Among : ℕ → List ℕ → Type 0
Among handle [] = ⊥
Among handle (h ∷ handles) = (h ≡ handle) ⊎ Among handle handles

module _ {Chan : Type 0} where
  -- A client that is closed, on which no call gets as far as its write.
  abbrev pub IsEnded : Client Chan → Type 0
  IsEnded c =
      (c.shared.closed ≢ none)
      × ((cmd : Command) (payload : List (List ℕ)) (slot id : ℕ) (packet : List ℕ)
          → (start c cmd payload slot).result ≢ ok (id, packet))

  closed-IsEnded : (c : Client Chan) → c.shared.closed ≢ none → IsEnded c
  closed-IsEnded c ended = (
    ended,
    (λ cmd payload slot id packet e. elim (start_lem c cmd payload slot) [
      | inl (_, open_now, _) ↦ ended open_now
      | inr (inl (_, w)) ↦ cc (sym e ∙ ap (λ s. s.result) w)
      | inr (inr (_, _, w)) ↦ cc (sym e ∙ ap (λ s. s.result) w)
    ]),
  )

  -- The deletion of one of these handles panicked, and left this client.
  abbrev pub DeletionPanicked : Exchange Chan → List ℕ → Client Chan → Type 0
  DeletionPanicked communicate handles after =
      (before : Client Chan) × (handle : ℕ) × Among handle handles
      × (delete_notification communicate before handle ≡ (after, panic))

  deleted_outcome :
      (communicate : Exchange Chan) (handle : ℕ) (handles : List ℕ) (c after : Client Chan)
      (o : Outcome Chan (Unit {0}))
      → delete_notification communicate c handle ≡ o
      → deleted communicate (λ c. delete_all communicate c handles) o ≡ (after, unwound)
      → ((c' : Client Chan)
          → delete_all communicate c' handles ≡ (after, unwound)
          → DeletionPanicked communicate handles after)
      → DeletionPanicked communicate (handle ∷ handles) after
  deleted_outcome communicate handle handles c after (c', ok u) s e later =
      let (before, h, there, p) = later c' e in (before, h, inr there, p)
  deleted_outcome communicate handle handles c after (c', err x) s e later =
      let (before, h, there, p) = later c' e in (before, h, inr there, p)
  deleted_outcome communicate handle handles c after (c', panic) s e later =
      (c, handle, inl refl, s ∙ ap (λ x. (x, panic)) (ap (λ p. p.0) e))

  deleted-panicked :
      (communicate : Exchange Chan) (handles : List ℕ) (c after : Client Chan)
      → delete_all communicate c handles ≡ (after, unwound)
      → DeletionPanicked communicate handles after
  unfolding delete_all
  deleted-panicked communicate [] c after e = cc
  deleted-panicked communicate (handle ∷ handles) c after e =
      deleted_outcome communicate handle handles c after (delete_notification communicate c handle)
        refl e (λ c' e'. deleted-panicked communicate handles c' after e')

  -- What `close` leaves, by how it ends.
  abbrev pub ClosedBy : Exchange Chan → List ℕ → Closing Chan → Type 0
  ClosedBy communicate handles (after, finished sent) = IsEnded after
  ClosedBy communicate handles (after, unwound) = DeletionPanicked communicate handles after

  closing-ClosedBy :
      (communicate : Exchange Chan) (handles : List ℕ) (port_opened : Bool)
      (o : Client Chan × Returns (Unit {0}))
      → ((after : Client Chan) → o ≡ (after, unwound) → DeletionPanicked communicate handles after)
      → ClosedBy communicate handles (closing communicate port_opened o)
  closing-ClosedBy communicate handles port_opened (c, finished u) panicked =
      closed-IsEnded (record c { shared = (tear_down c.shared Error.disconnected).0 })
        (tear_down-closed c.shared Error.disconnected)
  closing-ClosedBy communicate handles port_opened (c, unwound) panicked = panicked c refl

  -- Whatever errors its deletions meet, `close` leaves a client that is closed, on which no later
  -- call gets as far as its write. It does not get there only where the deletion of one of the
  -- client's handles panics; the panic then unwinds `close` as well.
  pub close-start :
      (communicate : Exchange Chan) (c : Client Chan) (port_opened : Bool)
      → ClosedBy communicate (keys c.shared.subscribers) (close communicate c port_opened)
  unfolding close
  close-start communicate c port_opened =
      closing-ClosedBy communicate (keys c.shared.subscribers) port_opened
        (delete_all communicate c (keys c.shared.subscribers))
        (λ after e. deleted-panicked communicate (keys c.shared.subscribers) c after e)

  -- A subscription on an open connection, with a device that grants it under a 32-bit handle: the
  -- caller gets the handle, which then leads to the caller's channel. Its deletion takes the handle
  -- away, and leaves the other handles as they were before the subscription.
  pub add-delete :
      (c : Client Chan) (group offset handle : ℕ) (attributes : NotificationAttributes)
      (sender : Chan)
      → c.shared.closed ≡ none
      → handle < 256 ^ 4
      → all_fit (attributes.length_of_data ∷ attributes.max_delay ∷ attributes.cycle_time ∷ [])
        ≡ ok tt
      → let (added, r) = add_notification (granting handle) c group offset attributes sender in
        let deleted = (delete_notification (granting handle) added handle).0 in
        (r ≡ ok handle)
        × (get handle added.shared.subscribers ≡ some sender)
        × (get handle deleted.shared.subscribers ≡ none)
        × ((j : ℕ) → j ≢ handle → get j deleted.shared.subscribers ≡ get j c.shared.subscribers)
  unfolding add_notification delete_notification subscribe is_closed
  add-delete c group offset handle attributes sender open_now fits sizes =
      rw (sizes, open_now, le_value-le_bytes 4 handle fits)
        (
          refl,
          get-insert handle handle sender c.shared.subscribers ∙ rw (==_refl handle),
          get-remove handle handle _ ∙ rw (==_refl handle),
          (λ j other.
              get-remove handle j _
              ∙ rw
                  (
                    ==_ne handle j (λ e. other (sym e)),
                    get-insert handle j sender c.shared.subscribers,
                  )
                  (rw (==_ne handle j (λ e. other (sym e))))),
        )
