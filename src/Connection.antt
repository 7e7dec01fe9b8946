-- ===== src/Connection.antt =====
-- src/connection.rs: a connection that may hold a client, and the run mode that it asks of the PLC.
pub mod Modes
mod Runs
use openstar_ads.Common.{
  ℕ, List, [], ◌∷◌, Bool, true, false, not, Option, none, some, ◌==◌, if◌then◌else◌,
}
use openstar_ads.Error.{Error, Result, ok, err, panic}
use openstar_ads.Protocol.{AdsState, run, state_code, AdsStateInfo}
use openstar_ads.Client.{Client, is_closed}
use openstar_ads.Client.Commands.{
  Outcome, Closing, finished, unwound, Exchange, then_result, then_step, read_state,
  read_device_info, write_control, close,
}

-- `AdsConnection`.
pub data AdsConnection (Chan : Type 0) : Type 0 where
  connected : Client Chan → AdsConnection Chan
  disconnected : AdsConnection Chan

-- A connection after an operation, its result, and the clients that it held before or was given and
-- does not hold any more, as they were left.
pub record Attempt (Chan : Type 0) : Type 0 where
  pub connection : AdsConnection Chan
  pub result : Result (Unit {0})
  pub given_up : List (Client Chan)

-- The derived equality of states.
abbrev pub same_state : AdsState → AdsState → Bool
same_state a b = state_code a == state_code b

module _ {Chan : Type 0} where
  -- `AdsConnection::client`.
  unfoldable pub client : AdsConnection Chan → Option (Client Chan)
  client (connected c) = if is_closed c.shared then none else some c
  client disconnected = none

  -- `AdsConnection::is_connected`.
  abbrev pub has_client : Option (Client Chan) → Bool
  has_client none = false
  has_client (some c) = true

  unfoldable pub is_connected : AdsConnection Chan → Bool
  unfolding client
  is_connected conn = has_client (client conn)

  module _ (communicate : Exchange Chan) where
    -- `AdsConnection::is_run_mode`.
    unfoldable pub is_run_mode : Client Chan → Outcome Chan Bool
    is_run_mode c =
        then_result (read_state communicate c) (λ info. ok (same_state info.ads_state run))

    -- The check after the PLC was told to run.
    unfoldable pub check_run : Client Chan → AdsStateInfo → Outcome Chan (Unit {0})
    check_run c info =
        if not (same_state info.ads_state run)
        then (c, err (Error.other "failed to set PLC to run mode!"))
        else (c, ok tt)

    -- The PLC is told to run, and asked for its state again.
    unfoldable pub tell_to_run : Client Chan → ℕ → Outcome Chan (Unit {0})
    unfolding check_run
    tell_to_run c device_state =
        then_step (write_control communicate c run device_state)
          λ c u. then_step (read_state communicate c) λ c info. check_run c info

    -- `AdsConnection::set_to_run_mode`.
    unfoldable pub set_to_run_mode : Client Chan → Outcome Chan (Unit {0})
    unfolding tell_to_run
    set_to_run_mode c = then_step (read_device_info communicate c) λ c device_info.
        then_step (read_state communicate c) λ c info.
          if not (same_state info.ads_state run)
          then tell_to_run c info.device_state
          else (c, ok tt)

    -- `AdsConnection::ensure_run_mode`.
    unfoldable pub ensure_run_mode : Client Chan → Bool → Outcome Chan (Unit {0})
    unfolding is_run_mode set_to_run_mode
    ensure_run_mode c allowed = then_step (is_run_mode c) λ c running.
        if running
        then (c, ok tt)
        else (if allowed then set_to_run_mode c else (c, err (Error.other "PLC not in run mode")))

    -- `disconnect` behind the close of its client. A panic leaves the connection as it was.
    abbrev pub dropped : Closing Chan → Attempt Chan
    dropped (c, finished sent) = record {
      connection = disconnected;
      result = ok tt;
      given_up = c ∷ [];
    }
    dropped (c, unwound) = record { connection = connected c; result = panic; given_up = [] }

    -- `AdsConnection::disconnect`; a client's router port is given back if it has one.
    unfoldable pub disconnect : AdsConnection Chan → Bool → Attempt Chan
    disconnect (connected c) port_opened = dropped (close communicate c port_opened)
    disconnect disconnected port_opened = record {
      connection = disconnected;
      result = ok tt;
      given_up = [];
    }

    -- A client whose run mode is not as asked is closed.
    abbrev pub turned_down : List (Client Chan) → Error → Closing Chan → Attempt Chan
    turned_down given_up e (c, finished sent) = record {
      connection = disconnected;
      result = err e;
      given_up = c ∷ given_up;
    }
    turned_down given_up e (c, unwound) = record {
      connection = disconnected;
      result = panic;
      given_up = c ∷ given_up;
    }

    -- What `connect` makes of a client whose run mode was asked for.
    unfoldable pub settle : List (Client Chan) → Bool → Outcome Chan (Unit {0}) → Attempt Chan
    settle given_up port_opened (c, ok u) = record {
      connection = connected c;
      result = ok tt;
      given_up = given_up;
    }
    settle given_up port_opened (c, err e) =
        turned_down given_up e (close communicate c port_opened)
    settle given_up port_opened (c, panic) = record {
      connection = disconnected;
      result = panic;
      given_up = c ∷ given_up;
    }

    -- `connect` behind `Client::new`, whose outcome is given.
    unfoldable pub with_client :
        List (Client Chan) → Bool → Bool → Result (Client Chan) → Attempt Chan
    unfolding settle ensure_run_mode
    with_client given_up port_opened allowed (ok c) =
        settle given_up port_opened (ensure_run_mode c allowed)
    with_client given_up port_opened allowed (err e) = record {
      connection = disconnected;
      result = err e;
      given_up = given_up;
    }
    with_client given_up port_opened allowed panic = record {
      connection = disconnected;
      result = panic;
      given_up = given_up;
    }

    -- `connect` behind its `disconnect`, which a panic does not leave.
    abbrev pub behind_disconnect :
        Attempt Chan → Result (Unit {0}) → (List (Client Chan) → Attempt Chan) → Attempt Chan
    behind_disconnect drop (ok u) next = next drop.given_up
    behind_disconnect drop (err e) next = drop
    behind_disconnect drop panic next = drop

    -- `AdsConnection::connect`.
    unfoldable pub connect : AdsConnection Chan → Bool → Bool → Result (Client Chan) → Attempt Chan
    unfolding is_connected disconnect with_client
    connect conn port_opened allowed new_client =
        let drop = disconnect conn port_opened in
        let tried =
          behind_disconnect drop drop.result
            (λ given_up. with_client given_up port_opened allowed new_client) in
        if is_connected conn
        then record { connection = conn; result = ok tt; given_up = [] }
        else tried
