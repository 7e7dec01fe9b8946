-- ===== src/Client/Commands/Stable.antt =====
-- What every exchange of a client keeps, and every change of its shared state, its commands keep.
use openstar_ads.Common.{ℕ, List, [], ◌∷◌, length, replicate}
use openstar_ads.Error.{Result, ok, err, panic}
use openstar_ads.Wire.{le_value}
use openstar_ads.Protocol.{Command, AdsState, add_notif_bytes}
use openstar_ads.Notification.{NotificationAttributes, trans_mode_code}
use openstar_ads.Client.{Client, Shared, subscribe}
use openstar_ads.Client.Commands.{
  Outcome, Exchange, then_step, checked, subscribed, read, read_exact, read_write, read_write_exact,
  read_device_info, read_state, write_control, add_notification, all_fit, nth_buf,
}

pub record Stable {Chan : Type 0} (communicate : Exchange Chan) (P : Client Chan → Type 0)
    : Type 0 where
  pub exchanged :
      (c : Client Chan) (cmd : Command) (payload bufs : List (List ℕ))
      → P c
      → P (communicate c cmd payload bufs).0
  pub shared_changed : (c : Client Chan) (s : Shared Chan) → P c → P (record c { shared = s })

module _ {Chan : Type 0} {communicate : Exchange Chan} {P : Client Chan → Type 0}
    (stable : Stable communicate P) where
  open stable use {exchanged, shared_changed}

  pub then_step-Stable :
      {A B : Type 0} (o : Outcome Chan A) (f : Client Chan → A → Outcome Chan B)
      → P o.0
      → ((c : Client Chan) (a : A) → P c → P (f c a).0)
      → P (then_step o f).0
  then_step-Stable (c, ok a) f h more = more c a h
  then_step-Stable (c, err e) f h more = h
  then_step-Stable (c, panic) f h more = h

  checked-Stable :
      {A : Type 0} (c : Client Chan) (r : Result (Unit {0})) (after : Outcome Chan A)
      → P c
      → P after.0
      → P (checked c r after).0
  checked-Stable c (ok u) after h more = more
  checked-Stable c (err e) after h more = h
  checked-Stable c panic after h more = h

  subscribed-Stable :
      (c : Client Chan) (handle : ℕ) (r : Result (Shared Chan)) → P c → P (subscribed c handle r).0
  subscribed-Stable c handle (ok s) h = shared_changed c s h
  subscribed-Stable c handle (err e) h = h
  subscribed-Stable c handle panic h = h

  pub read_device_info-Stable : (c : Client Chan) → P c → P (read_device_info communicate c).0
  unfolding read_device_info
  read_device_info-Stable c h = exchanged c _ _ _ h

  pub read_exact-Stable :
      (c : Client Chan) (group offset : ℕ) (buf : List ℕ)
      → P c
      → P (read_exact communicate c group offset buf).0
  unfolding read_exact read
  read_exact-Stable c group offset buf h =
      checked-Stable c (all_fit (length buf ∷ [])) _ h (exchanged c _ _ _ h)

  pub read_write-Stable :
      (c : Client Chan) (group offset : ℕ) (buf bytes : List ℕ)
      → P c
      → P (read_write communicate c group offset buf bytes).0
  unfolding read_write
  read_write-Stable c group offset buf bytes h =
      checked-Stable c (all_fit (length buf ∷ length bytes ∷ [])) _ h (exchanged c _ _ _ h)

  pub read_write_exact-Stable :
      (c : Client Chan) (group offset : ℕ) (buf bytes : List ℕ)
      → P c
      → P (read_write_exact communicate c group offset buf bytes).0
  unfolding read_write_exact
  read_write_exact-Stable c group offset buf bytes h = read_write-Stable c group offset buf bytes h

  pub read_state-Stable : (c : Client Chan) → P c → P (read_state communicate c).0
  unfolding read_state
  read_state-Stable c h = exchanged c _ _ _ h

  pub write_control-Stable :
      (c : Client Chan) (state : AdsState) (dev_state : ℕ)
      → P c
      → P (write_control communicate c state dev_state).0
  unfolding write_control
  write_control-Stable c state dev_state h = exchanged c _ _ _ h

  pub add_notification-Stable :
      (c : Client Chan) (group offset : ℕ) (attributes : NotificationAttributes) (sender : Chan)
      → P c
      → P (add_notification communicate c group offset attributes sender).0
  unfolding add_notification
  add_notification-Stable c group offset attributes sender h =
      checked-Stable c (all_fit sizes) granted h (
        then_step-Stable exchange next (exchanged c Command.add_notification _ _ h) (λ c r hc.
          subscribed-Stable c (handle_in r) (subscribe c.shared (handle_in r) sender) hc))
    where
      sizes : List ℕ
      sizes = attributes.length_of_data ∷ attributes.max_delay ∷ attributes.cycle_time ∷ []

      handle_in : ℕ × List (List ℕ) → ℕ
      handle_in (n, bufs) = le_value (nth_buf 0 bufs)

      exchange : Outcome Chan (ℕ × List (List ℕ))
      exchange =
          communicate c Command.add_notification
            (add_notif_bytes group offset attributes.length_of_data
                (trans_mode_code attributes.trans_mode) attributes.max_delay attributes.cycle_time
              ∷ [])
            (replicate 4 0 ∷ [])

      next : Client Chan → ℕ × List (List ℕ) → Outcome Chan ℕ
      next c r = subscribed c (handle_in r) (subscribe c.shared (handle_in r) sender)

      granted : Outcome Chan ℕ
      granted = then_step exchange next
