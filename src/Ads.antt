-- ===== src/Ads.antt =====
-- src/ads.rs: `Ads`, a connection with the symbol handles that it was given, and its operations.
-- An operation gives the state that it leaves and its result; the client that a callback is handed is
-- the one of the connection, so the connection holds what the callback leaves of it.
pub mod Subscribe
pub mod Describe
pub mod Retry
pub mod Handles
pub mod Callbacks
pub mod Sessions
pub mod Cache
mod Runs
use openstar_ads.Common.{
  ℕ, String, List, [], ◌∷◌, Bool, true, false, Option, none, some, ◌||◌, ◌==◌, if◌then◌else◌,
  replicate,
}
use openstar_ads.Error.{Error, Result, ok, err, panic, ◌>>=◌}
use openstar_ads.Wire.{le_value}
use openstar_ads.Protocol.{DeviceInfo}
use openstar_ads.Client.{Client, is_closed}
use openstar_ads.Client.Commands.{
  Outcome, Exchange, then_result, read_device_info, read_exact, read_write, read_write_exact,
}
use openstar_ads.Connection.{
  AdsConnection, connected, disconnected, client, is_connected, is_run_mode, set_to_run_mode,
}
use openstar_ads.Connection
use openstar_ads.Symbol.{Text, same_text}

-- `HashMap<String, SymbolHandle>`.
abbrev pub SymbolHandles : Type 0
SymbolHandles = List (Text × ℕ)

unfoldable pub get_handle : Text → SymbolHandles → Option ℕ
get_handle symbol [] = none
get_handle symbol ((s, h) ∷ m) =
    let rest = get_handle symbol m in if same_text s symbol then some h else rest

unfoldable pub insert_handle : Text → ℕ → SymbolHandles → SymbolHandles
insert_handle symbol handle [] = (symbol, handle) ∷ []
insert_handle symbol handle ((s, h) ∷ m) =
    let rest = insert_handle symbol handle m in
    if same_text s symbol then (s, handle) ∷ m else (s, h) ∷ rest

-- `Ads`, less the addresses, the timeouts and the run mode that it connects with.
pub record Ads (Chan : Type 0) : Type 0 where
  pub connection : AdsConnection Chan
  pub symbol_handles : SymbolHandles

-- The state after an operation, and its result.
abbrev pub Step : Type 0 → Type 0 → Type 0
Step Chan A = Ads Chan × Result A

-- `index::GET_SYMHANDLE_BYNAME` and `index::RW_SYMVAL_BYHANDLE`.
abbrev pub get_symhandle_byname : ℕ
get_symhandle_byname = 61443

abbrev pub rw_symval_byhandle : ℕ
rw_symval_byhandle = 61445

-- `Ads::should_disconnect`.
unfoldable pub should_disconnect : Error → Bool
should_disconnect (Error.ads ctx text code) = code == 6
should_disconnect e = false

module _ {Chan : Type 0} where
  -- `Ads::new`, once the router's address is found.
  abbrev pub new : Ads Chan
  new = record { connection = disconnected; symbol_handles = [] }

  -- `Ads::is_connected`.
  abbrev pub ads_is_connected : Ads Chan → Bool
  ads_is_connected ads = is_connected ads.connection

  -- What `get_symbol_handle` asks of the client: four bytes, as many as come, for the name.
  unfoldable pub ask_handle : Exchange Chan → Text → Client Chan → Outcome Chan ℕ
  ask_handle communicate symbol c =
      then_result (read_write communicate c get_symhandle_byname 0 (replicate 4 0) symbol)
        (λ (len, read_data). ok (le_value read_data))

  -- A handle that was given is kept.
  abbrev pub remember : Text → Step Chan ℕ → Step Chan ℕ
  remember symbol (ads, ok handle) =
      (record ads { symbol_handles = insert_handle symbol handle ads.symbol_handles }, ok handle)
  remember symbol (ads, err e) = (ads, err e)
  remember symbol (ads, panic) = (ads, panic)

  abbrev pub discard : Outcome Chan (List ℕ) → Outcome Chan (Unit {0})
  discard r = then_result r (λ read_data. ok tt)

  -- `port_opened`: whether the client was given a port by the router, which its close gives back.
  module _ (communicate : Exchange Chan) (port_opened : Bool) where
    -- `Ads::connect`, for what `Client::new` answers.
    unfoldable pub connect : Ads Chan → Bool → Result (Client Chan) → Step Chan (Unit {0})
    connect ads allowed new_client =
        let attempt =
          Connection.connect communicate ads.connection port_opened allowed new_client in
        let handles = if is_connected ads.connection then ads.symbol_handles else [] in
        (record { connection = attempt.connection; symbol_handles = handles }, attempt.result)

    -- `Ads::disconnect`.
    unfoldable pub disconnect : Ads Chan → Step Chan (Unit {0})
    disconnect ads =
        let attempt = Connection.disconnect communicate ads.connection port_opened in
        (record { connection = attempt.connection; symbol_handles = [] }, attempt.result)

    -- A result behind a disconnection, which a panic takes the place of.
    abbrev pub after_disconnect : {A : Type 0} → Step Chan (Unit {0}) → Result A → Step Chan A
    after_disconnect (ads, ok u) r = (ads, r)
    after_disconnect (ads, err e) r = (ads, r)
    after_disconnect (ads, panic) r = (ads, panic)

    -- The end of `with_client`: on an error that says so, the connection is given up.
    unfoldable pub after_callback : {A : Type 0} → Ads Chan → Outcome Chan A → Step Chan A
    unfolding disconnect should_disconnect
    after_callback ads (c, ok value) = (record ads { connection = connected c }, ok value)
    after_callback ads (c, err error) =
        let left = record ads { connection = connected c } in
        if is_closed c.shared || should_disconnect error
        then after_disconnect (disconnect left) (err error)
        else (left, err error)
    after_callback ads (c, panic) = (record ads { connection = connected c }, panic)

    abbrev pub run_callback :
        {A : Type 0}
        → Ads Chan
        → (Client Chan → Outcome Chan A)
        → Option (Client Chan)
        → Step Chan A
    run_callback ads callback none = (ads, err Error.disconnected)
    run_callback ads callback (some c) = after_callback ads (callback c)

    -- `Ads::with_client`.
    unfoldable pub with_client :
        {A : Type 0} → Ads Chan → (Client Chan → Outcome Chan A) → Step Chan A
    unfolding after_callback
    with_client ads callback = run_callback ads callback (client ads.connection)

    -- `Ads::get_info`, `Ads::is_run_mode` and `Ads::set_to_run_mode`.
    unfoldable pub get_info : Ads Chan → Step Chan DeviceInfo
    unfolding with_client
    get_info ads = with_client ads (read_device_info communicate)

    unfoldable pub ads_is_run_mode : Ads Chan → Step Chan Bool
    unfolding with_client
    ads_is_run_mode ads = with_client ads (is_run_mode communicate)

    unfoldable pub ads_set_to_run_mode : Ads Chan → Step Chan (Unit {0})
    unfolding with_client
    ads_set_to_run_mode ads = with_client ads (set_to_run_mode communicate)

    -- `Ads::get_symbol_handle`.
    unfoldable pub get_symbol_handle : Ads Chan → Text → Step Chan ℕ
    unfolding with_client ask_handle
    get_symbol_handle ads symbol = with_client ads (ask_handle communicate symbol)

    abbrev pub or_ask : Ads Chan → Text → Option ℕ → Step Chan ℕ
    or_ask ads symbol (some handle) = (ads, ok handle)
    or_ask ads symbol none = remember symbol (get_symbol_handle ads symbol)

    -- `Ads::symbol_handle`.
    unfoldable pub symbol_handle : Ads Chan → Text → Step Chan ℕ
    unfolding get_symbol_handle insert_handle get_handle
    symbol_handle ads symbol = or_ask ads symbol (get_handle symbol ads.symbol_handles)

    -- What is done with the handle of a symbol.
    abbrev pub with_handle :
        {A : Type 0} → Step Chan ℕ → (ℕ → Client Chan → Outcome Chan A) → Step Chan A
    with_handle (ads, ok handle) callback = with_client ads (callback handle)
    with_handle (ads, err e) callback = (ads, err e)
    with_handle (ads, panic) callback = (ads, panic)

    -- `Ads::read_symbol`, for a type of `size` bytes whose default is zero.
    unfoldable pub read_symbol : Ads Chan → Text → ℕ → Step Chan (List ℕ)
    unfolding symbol_handle with_client
    read_symbol ads symbol size =
        with_handle (symbol_handle ads symbol)
          λ handle c. read_exact communicate c rw_symval_byhandle handle (replicate size 0)

    -- `Ads::fetch_from_rpc_method`; the parameters are the bytes that they are written as.
    unfoldable pub fetch_from_rpc_method : Ads Chan → Text → List ℕ → ℕ → Step Chan (List ℕ)
    unfolding symbol_handle with_client
    fetch_from_rpc_method ads symbol write_data size =
        with_handle (symbol_handle ads symbol) λ handle c.
          read_write_exact communicate c rw_symval_byhandle handle (replicate size 0) write_data

    -- `Ads::invoke_rpc_method`.
    unfoldable pub invoke_rpc_method : Ads Chan → Text → List ℕ → Step Chan (Unit {0})
    unfolding symbol_handle with_client
    invoke_rpc_method ads symbol write_data =
        with_handle (symbol_handle ads symbol) λ handle c.
          discard (read_write_exact communicate c rw_symval_byhandle handle [] write_data)
