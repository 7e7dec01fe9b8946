-- ===== src/Ads/Sessions.antt =====
-- Any sequence of the operations of `Ads`, with the work of other tasks in between.
use openstar_ads.Common.{ℕ, List, [], ◌∷◌, Bool, none, replicate}
use openstar_ads.Error.{Result, ok, err, panic}
use openstar_ads.Notification.{NotificationTransmissionMode}
use openstar_ads.Client.{Client, Shared}
use openstar_ads.Client.Commands.{
  Exchange, then_result, read_device_info, read_exact, read_write_exact, add_notification,
}
use openstar_ads.Client.Commands.Stable.{
  read_device_info-Stable, read_exact-Stable, read_write_exact-Stable, add_notification-Stable,
}
use openstar_ads.Connection.{AdsConnection, connected, disconnected, is_run_mode, set_to_run_mode}
use openstar_ads.Symbol.{Text}
use openstar_ads.Ads.{
  Ads, Step, connect, disconnect, symbol_handle, read_symbol, fetch_from_rpc_method,
  invoke_rpc_method, rw_symval_byhandle, get_info, ads_is_run_mode, ads_set_to_run_mode, discard,
}
use openstar_ads.Ads.Subscribe.{subscribe_inner, to_subscription, attributes}
use openstar_ads.Ads.Describe.{get_symbol_info, get_dynamic_type_tree, tree_of_symbol, find_symbol}
use openstar_ads.Ads.Handles.{
  IsCurrent, Current, Given-Stable, with_client-IsCurrent, connect-IsCurrent, disconnect-IsCurrent,
  symbol_handle-IsCurrent, with_handle-IsCurrent,
}
use openstar_ads.Ads.Callbacks.{is_run_mode-Keeps, set_to_run_mode-Keeps, get_symbol_info-Keeps}

-- A call of one of the methods. A subscription names the size of its data and its channel.
pub data Op (Chan : Type 0) : Type 0 where
  connect_op : Bool → Result (Client Chan) → Op Chan
  disconnect_op get_info_op is_run_mode_op set_to_run_mode_op : Op Chan
  read_symbol_op : Text → ℕ → Op Chan
  fetch_op : Text → List ℕ → ℕ → Op Chan
  invoke_op : Text → List ℕ → Op Chan
  subscribe_op : Text → ℕ → NotificationTransmissionMode → Chan → Op Chan
  describe_op : Text → Op Chan
  -- What the reader's task and other calls make of the shared state of the client.
  others : Shared Chan → Op Chan

module _ {Chan : Type 0} where
  abbrev pub with_shared : Shared Chan → AdsConnection Chan → AdsConnection Chan
  with_shared s (connected c) = connected (record c { shared = s })
  with_shared s disconnected = disconnected

  module _ (communicate : Exchange Chan) (port_opened : Bool) (lossy to_lowercase : List ℕ → Text)
      (depth : ℕ) where
    unfoldable pub perform : Op Chan → Ads Chan → Ads Chan
    perform (connect_op allowed new_client) ads =
        (connect communicate port_opened ads allowed new_client).0
    perform disconnect_op ads = (disconnect communicate port_opened ads).0
    perform get_info_op ads = (get_info communicate port_opened ads).0
    perform is_run_mode_op ads = (ads_is_run_mode communicate port_opened ads).0
    perform set_to_run_mode_op ads = (ads_set_to_run_mode communicate port_opened ads).0
    perform (read_symbol_op symbol size) ads =
        (read_symbol communicate port_opened ads symbol size).0
    perform (fetch_op symbol write_data size) ads =
        (fetch_from_rpc_method communicate port_opened ads symbol write_data size).0
    perform (invoke_op symbol write_data) ads =
        (invoke_rpc_method communicate port_opened ads symbol write_data).0
    perform (subscribe_op symbol size mode chan) ads =
        (subscribe_inner communicate port_opened ads symbol size (λ payload. ok payload) mode
          chan).0
    perform (describe_op symbol) ads =
        (get_dynamic_type_tree communicate lossy port_opened to_lowercase depth ads symbol).0
    perform (others s) ads = record ads { connection = with_shared s ads.connection }

    unfoldable pub session : List (Op Chan) → Ads Chan → Ads Chan
    session [] ads = ads
    session (op ∷ ops) ads = session ops (perform op ads)

module _ {Chan : Type 0} (communicate : Exchange Chan) where
  to_subscription-kept :
      {T : Type 0} (chan : Chan) (from : List ℕ → Result T) (r : Step Chan ℕ)
      → IsCurrent communicate r.0
      → IsCurrent communicate (to_subscription chan from r).0
  to_subscription-kept chan from (ads, ok handle) h = h
  to_subscription-kept chan from (ads, err e) h = h
  to_subscription-kept chan from (ads, panic) h = h

  others-kept :
      (s : Shared Chan) (ads : Ads Chan)
      → IsCurrent communicate ads
      → Current communicate (with_shared s ads.connection) ads.symbol_handles
  others-kept s ads h = by_connection ads.connection h
    where
      by_connection :
          (conn : AdsConnection Chan)
          → Current communicate conn ads.symbol_handles
          → Current communicate (with_shared s conn) ads.symbol_handles
      by_connection (connected c) h =
          (Given-Stable communicate ads.symbol_handles).shared_changed c s h
      by_connection disconnected h = h

  module _ (port_opened : Bool) (lossy to_lowercase : List ℕ → Text) (depth : ℕ) where
    perform-IsCurrent :
        (op : Op Chan) (ads : Ads Chan)
        → IsCurrent communicate ads
        → IsCurrent communicate (perform communicate port_opened lossy to_lowercase depth op ads)
    unfolding perform get_info ads_is_run_mode ads_set_to_run_mode read_symbol fetch_from_rpc_method
        invoke_rpc_method subscribe_inner get_dynamic_type_tree
    perform-IsCurrent (connect_op allowed new_client) ads h =
        connect-IsCurrent communicate port_opened ads allowed new_client h
    perform-IsCurrent disconnect_op ads h = disconnect-IsCurrent communicate port_opened ads
    perform-IsCurrent get_info_op ads h =
        with_client-IsCurrent communicate port_opened ads (read_device_info communicate)
          (λ P stable c hc. read_device_info-Stable stable c hc) h
    perform-IsCurrent is_run_mode_op ads h =
        with_client-IsCurrent communicate port_opened ads (is_run_mode communicate)
          (is_run_mode-Keeps communicate) h
    perform-IsCurrent set_to_run_mode_op ads h =
        with_client-IsCurrent communicate port_opened ads (set_to_run_mode communicate)
          (set_to_run_mode-Keeps communicate) h
    perform-IsCurrent (read_symbol_op symbol size) ads h =
        with_handle-IsCurrent communicate port_opened
          (symbol_handle communicate port_opened ads symbol)
          (λ handle c. read_exact communicate c rw_symval_byhandle handle (replicate size 0))
          (λ handle P stable c hc.
            read_exact-Stable stable c rw_symval_byhandle handle (replicate size 0) hc)
          (symbol_handle-IsCurrent communicate port_opened ads symbol h)
    perform-IsCurrent (fetch_op symbol write_data size) ads h =
        with_handle-IsCurrent communicate port_opened
          (symbol_handle communicate port_opened ads symbol)
          (λ handle c.
            read_write_exact communicate c rw_symval_byhandle handle (replicate size 0) write_data)
          (λ handle P stable c hc.
            read_write_exact-Stable stable c rw_symval_byhandle handle (replicate size 0) write_data
              hc)
          (symbol_handle-IsCurrent communicate port_opened ads symbol h)
    perform-IsCurrent (invoke_op symbol write_data) ads h =
        with_handle-IsCurrent communicate port_opened
          (symbol_handle communicate port_opened ads symbol)
          (λ handle c.
            discard (read_write_exact communicate c rw_symval_byhandle handle [] write_data))
          (λ handle P stable c hc.
            read_write_exact-Stable stable c rw_symval_byhandle handle [] write_data hc)
          (symbol_handle-IsCurrent communicate port_opened ads symbol h)
    perform-IsCurrent (subscribe_op symbol size mode chan) ads h =
        to_subscription-kept chan (λ payload. ok payload) _
          (with_handle-IsCurrent communicate port_opened
            (symbol_handle communicate port_opened ads symbol)
            (λ handle c.
              add_notification communicate c rw_symval_byhandle handle (attributes size mode) chan)
            (λ handle P stable c hc.
              add_notification-Stable stable c rw_symval_byhandle handle (attributes size mode) chan
                hc)
            (symbol_handle-IsCurrent communicate port_opened ads symbol h))
    perform-IsCurrent (describe_op symbol) ads h =
        with_client-IsCurrent communicate port_opened ads
          (λ c. then_result (get_symbol_info communicate lossy c) λ (symbols, types).
            tree_of_symbol depth types (find_symbol to_lowercase symbol symbols none))
          (λ P stable c hc. get_symbol_info-Keeps communicate lossy P stable c hc) h
    perform-IsCurrent (others s) ads h = others-kept s ads h

    -- Any sequence of operations, whatever the device answers, however connections are made and lost,
    -- and whatever other tasks make of the client's shared state in between: if the handles that `Ads`
    -- keeps at its start were given on its connection, then so was each that it keeps at the end, and
    -- it keeps none without a connection. A handle is given by an exchange that asks for it, and stays
    -- given through further exchanges of the same client, but not on another connection.
    pub session-IsCurrent :
        (ops : List (Op Chan)) (ads : Ads Chan)
        → IsCurrent communicate ads
        → IsCurrent communicate (session communicate port_opened lossy to_lowercase depth ops ads)
    unfolding session
    session-IsCurrent [] ads h = h
    session-IsCurrent (op ∷ ops) ads h =
        session-IsCurrent ops (perform communicate port_opened lossy to_lowercase depth op ads)
          (perform-IsCurrent op ads h)
