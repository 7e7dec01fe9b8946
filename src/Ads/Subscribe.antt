-- ===== src/Ads/Subscribe.antt =====
-- src/ads.rs: the subscriptions to a symbol, to its tree and to its map of values.
use openstar_ads.Common.{ℕ, List, [], ◌==◌, Bool, Option, none, some, length, if◌then◌else◌}
use openstar_ads.Error.{Result, ok, err, panic}
use openstar_ads.Notification.{NotificationAttributes, NotificationTransmissionMode}
use openstar_ads.Client.Commands.{Exchange, add_notification}
use openstar_ads.Symbol.{Text}
use openstar_ads.Symbol.Tree.{SymbolTypeTree, get_size}
use openstar_ads.Symbol.Tree.Flat.{SymbolTypeMap, from_tree}
use openstar_ads.Symbol.Values.{SymbolTree, from_bytes}
use openstar_ads.Symbol.Values.Primitive.{SymbolMap}
use openstar_ads.Symbol.Values.Primitive
use openstar_ads.Ads.{Ads, Step, symbol_handle, with_handle, rw_symval_byhandle}

-- `NotificationSubscription`: the channel that the bytes come from, and what is made of them.
pub record NotificationSubscription (Chan T : Type 0) : Type 0 where
  pub receiver : Chan
  pub from : List ℕ → Result T

-- `AdsData::from_bytes`: the bytes, if they are as many as the type has.
unfoldable pub data_from_bytes : ℕ → List ℕ → Option (List ℕ)
data_from_bytes size bytes = if length bytes == size then some bytes else none

-- The attributes of every subscription: no delay, and a cycle of ten milliseconds.
abbrev pub attributes : ℕ → NotificationTransmissionMode → NotificationAttributes
attributes size transmission_mode = record {
  length_of_data = size;
  trans_mode = transmission_mode;
  max_delay = 0;
  cycle_time = 10;
}

module _ {Chan : Type 0} where
  -- `NotificationSubscription::recv`, for what the channel hands out.
  unfoldable pub recv :
      {T : Type 0} → NotificationSubscription Chan T → Option (List ℕ) → Option (Result T)
  recv s none = none
  recv s (some bytes) = some (s.from bytes)

  abbrev pub to_subscription :
      {T : Type 0}
      → Chan
      → (List ℕ → Result T)
      → Step Chan ℕ
      → Step Chan (NotificationSubscription Chan T)
  to_subscription receiver from (ads, ok handle) =
      (ads, ok (record { receiver = receiver; from = from }))
  to_subscription receiver from (ads, err e) = (ads, err e)
  to_subscription receiver from (ads, panic) = (ads, panic)

  module _ (communicate : Exchange Chan) (port_opened : Bool) where
    -- `Ads::subscribe_inner`, with the channel that `add_notification` makes.
    unfoldable pub subscribe_inner :
        {T : Type 0}
        → Ads Chan
        → Text
        → ℕ
        → (List ℕ → Result T)
        → NotificationTransmissionMode
        → Chan
        → Step Chan (NotificationSubscription Chan T)
    subscribe_inner ads symbol size from transmission_mode chan = to_subscription chan from (
        with_handle communicate port_opened (symbol_handle communicate port_opened ads symbol)
          λ handle c.
            add_notification communicate c rw_symval_byhandle handle
              (attributes size transmission_mode) chan)

    -- `Ads::subscribe`, for a type of `size` bytes.
    unfoldable pub subscribe :
        Ads Chan
        → Text
        → ℕ
        → NotificationTransmissionMode
        → Chan
        → Step Chan (NotificationSubscription Chan (Option (List ℕ)))
    unfolding subscribe_inner data_from_bytes
    subscribe ads symbol size transmission_mode chan =
        subscribe_inner ads symbol size (λ payload. ok (data_from_bytes size payload))
          transmission_mode chan

    module _ (lossy : List ℕ → Text) (to_f64 : List ℕ → ℕ) where
      -- `Ads::subscribe_tree`.
      unfoldable pub subscribe_tree :
          Ads Chan
          → Text
          → SymbolTypeTree
          → NotificationTransmissionMode
          → Chan
          → Step Chan (NotificationSubscription Chan SymbolTree)
      unfolding subscribe_inner
      subscribe_tree ads symbol symbol_type_tree transmission_mode chan =
          subscribe_inner ads symbol (get_size symbol_type_tree)
            (λ payload. from_bytes lossy to_f64 payload symbol_type_tree 0) transmission_mode chan

      module _ {Date : Type 0} (datetime : ℕ → ℕ → ℕ → ℕ → ℕ → ℕ → ℕ → Option Date) where
        -- The rest of `subscribe_map`, for what `SymbolTypeMap::from_tree` gives.
        unfoldable pub subscribe_entries :
            Ads Chan
            → Text
            → ℕ
            → Result SymbolTypeMap
            → NotificationTransmissionMode
            → Chan
            → Step Chan (NotificationSubscription Chan (SymbolMap Date))
        unfolding subscribe_inner
        subscribe_entries ads symbol size (ok symbol_type_map) transmission_mode chan =
            subscribe_inner ads symbol size
              (λ payload. Primitive.from_bytes lossy to_f64 datetime payload symbol_type_map)
              transmission_mode chan
        subscribe_entries ads symbol size (err e) transmission_mode chan = (ads, err e)
        subscribe_entries ads symbol size panic transmission_mode chan = (ads, panic)

        -- `Ads::subscribe_map`.
        unfoldable pub subscribe_map :
            Ads Chan
            → Text
            → SymbolTypeTree
            → NotificationTransmissionMode
            → Chan
            → Step Chan (NotificationSubscription Chan (SymbolMap Date))
        unfolding subscribe_entries
        subscribe_map ads symbol symbol_type_tree transmission_mode chan =
            subscribe_entries ads symbol (get_size symbol_type_tree)
              (from_tree symbol_type_tree 0 []) transmission_mode chan
