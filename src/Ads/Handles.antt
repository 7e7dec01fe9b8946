-- ===== src/Ads/Handles.antt =====
-- The symbol handles that `Ads` keeps: each was given on the connection that it has.
use openstar_ads.Common.{
  ℕ, ◌≡◌, refl, sym, ap, subst, List, [], ◌∷◌, Bool, Option, none, some, ◌||◌, All, replicate,
  Bool-cases, inl, inr,
}
use openstar_ads.Error.{Error, Result, ok, err, panic}
use openstar_ads.Protocol.{Command}
use openstar_ads.Client.{Client, Shared, is_closed}
use openstar_ads.Client.Commands.{Outcome, Exchange}
use openstar_ads.Client.Commands.Stable.{Stable, read_write-Stable}
use openstar_ads.Connection.{
  AdsConnection, connected, disconnected, client, is_connected, is_run_mode, set_to_run_mode,
  check_run, tell_to_run, same_state,
}
use openstar_ads.Connection
use openstar_ads.Symbol.{Text, same_text}
use openstar_ads.Symbol.Values.Names.{same_text-eq}
use openstar_ads.Ads.{
  SymbolHandles, get_handle, insert_handle, Ads, Step, connect, disconnect, after_disconnect,
  after_callback, run_callback, with_client, ask_handle, get_symbol_handle, remember, or_ask,
  symbol_handle, with_handle, should_disconnect, get_symhandle_byname,
}

-- The handle was the device's answer for the symbol, on this client's connection: the client asked
-- for it, or it is what exchanges and other tasks made of a client that asked for it.
pub data Given {Chan : Type 0} (communicate : Exchange Chan) : Client Chan → Text → ℕ → Type 0 where
  asked :
      {symbol : Text} {handle : ℕ} (c c' : Client Chan)
      → ask_handle communicate symbol c ≡ (c', ok handle)
      → Given communicate c' symbol handle
  exchanged_since :
      {symbol : Text} {handle : ℕ} (c : Client Chan) (cmd : Command) (payload bufs : List (List ℕ))
      → Given communicate c symbol handle
      → Given communicate (communicate c cmd payload bufs).0 symbol handle
  shared_since :
      {symbol : Text} {handle : ℕ} (c : Client Chan) (s : Shared Chan)
      → Given communicate c symbol handle
      → Given communicate (record c { shared = s }) symbol handle

module _ {Chan : Type 0} (communicate : Exchange Chan) where
  -- Each handle was given on the connection that there is; without a connection there is none.
  abbrev pub Current : AdsConnection Chan → SymbolHandles → Type 0
  Current (connected c) handles = All (λ entry. Given communicate c entry.0 entry.1) handles
  Current disconnected handles = handles ≡ []

  abbrev pub IsCurrent : Ads Chan → Type 0
  IsCurrent ads = Current ads.connection ads.symbol_handles

  each :
      (c c' : Client Chan) (handles : SymbolHandles)
      → ((symbol : Text) (handle : ℕ)
          → Given communicate c symbol handle
          → Given communicate c' symbol handle)
      → Current (connected c) handles
      → Current (connected c') handles
  each c c' [] more h = tt
  each c c' (entry ∷ handles) more h = (more entry.0 entry.1 h.0, each c c' handles more h.1)

  pub Given-Stable :
      (handles : SymbolHandles) → Stable communicate (λ c. Current (connected c) handles)
  Given-Stable handles = record {
    exchanged = λ c cmd payload bufs h.
        each c (communicate c cmd payload bufs).0 handles
          (λ symbol handle g. Given.exchanged_since c cmd payload bufs g) h;
    shared_changed = λ c s h.
        each c (record c { shared = s }) handles (λ symbol handle g. Given.shared_since c s g) h;
  }

  pub no_handles : (conn : AdsConnection Chan) → Current conn []
  no_handles (connected c) = tt
  no_handles disconnected = refl

  -- A callback that keeps what every exchange keeps.
  abbrev pub Keeps : {A : Type 0} → (Client Chan → Outcome Chan A) → Type 1
  Keeps callback =
      (P : Client Chan → Type 0) → Stable communicate P → (c : Client Chan) → P c → P (callback c).0

  same_client :
      (conn : AdsConnection Chan) (c : Client Chan) (handles : SymbolHandles)
      → client conn ≡ some c
      → Current conn handles
      → Current (connected c) handles
  unfolding client
  same_client (connected d) c handles e h = elim (Bool-cases (is_closed d.shared)) [
    | inl closed ↦ cc (rw closed at e)
    | inr open_now ↦
        let same : d ≡ c = ap (λ o. elim o [ some x ↦ x | none ↦ d ]) (rw open_now at e) in
        subst (λ x. Current (connected x) handles) same h
  ]
  same_client disconnected c handles e h = cc

  module _ (port_opened : Bool) where
    pub disconnect-IsCurrent :
        (ads : Ads Chan) → IsCurrent (disconnect communicate port_opened ads).0
    unfolding disconnect
    disconnect-IsCurrent ads = no_handles _

    after_disconnect-IsCurrent :
        {A : Type 0} (r : Step Chan (Unit {0})) (result : Result A)
        → IsCurrent r.0
        → IsCurrent (after_disconnect communicate port_opened r result).0
    after_disconnect-IsCurrent (ads, ok u) result h = h
    after_disconnect-IsCurrent (ads, err e) result h = h
    after_disconnect-IsCurrent (ads, panic) result h = h

    after_callback-IsCurrent :
        {A : Type 0} (ads : Ads Chan) (o : Outcome Chan A)
        → Current (connected o.0) ads.symbol_handles
        → IsCurrent (after_callback communicate port_opened ads o).0
    unfolding after_callback
    after_callback-IsCurrent ads (c, ok value) h = h
    after_callback-IsCurrent ads (c, err e) h =
        elim (Bool-cases (is_closed c.shared || should_disconnect e)) [
          | inl given_up ↦ rw given_up (
              after_disconnect-IsCurrent
                (disconnect communicate port_opened (record ads { connection = connected c }))
                (err e) (disconnect-IsCurrent (record ads { connection = connected c })))
          | inr stays ↦ rw stays h
        ]
    after_callback-IsCurrent ads (c, panic) h = h

    run_callback-IsCurrent :
        {A : Type 0} (ads : Ads Chan) (callback : Client Chan → Outcome Chan A)
        (o : Option (Client Chan))
        → client ads.connection ≡ o
        → Keeps callback
        → IsCurrent ads
        → IsCurrent (run_callback communicate port_opened ads callback o).0
    run_callback-IsCurrent ads callback none e keeps h = h
    run_callback-IsCurrent ads callback (some c) e keeps h =
        after_callback-IsCurrent ads (callback c) (
          keeps (λ c. Current (connected c) ads.symbol_handles) (Given-Stable ads.symbol_handles) c
            (same_client ads.connection c ads.symbol_handles e h))

    pub with_client-IsCurrent :
        {A : Type 0} (ads : Ads Chan) (callback : Client Chan → Outcome Chan A)
        → Keeps callback
        → IsCurrent ads
        → IsCurrent (with_client communicate port_opened ads callback).0
    unfolding with_client
    with_client-IsCurrent ads callback keeps h =
        run_callback-IsCurrent ads callback (client ads.connection) refl keeps h

    pub connect-IsCurrent :
        (ads : Ads Chan) (allowed : Bool) (new_client : Result (Client Chan))
        → IsCurrent ads
        → IsCurrent (connect communicate port_opened ads allowed new_client).0
    unfolding connect openstar_ads.Connection.connect
    connect-IsCurrent ads allowed new_client h = elim (Bool-cases (is_connected ads.connection)) [
      | inl already ↦ rw already h
      | inr not_yet ↦ rw not_yet (no_handles _)
    ]

    -- A handle that was asked for was given by the client that the step leaves.
    GivenIn : Text → Step Chan ℕ → Type 0
    GivenIn symbol (ads, ok handle) = Current ads.connection ((symbol, handle) ∷ [])
    GivenIn symbol r = Unit {0}

    after_disconnect-GivenIn :
        (symbol : Text) (r : Step Chan (Unit {0})) (e : Error)
        → GivenIn symbol (after_disconnect communicate port_opened r (err e))
    unfolding GivenIn
    after_disconnect-GivenIn symbol (ads, ok u) e = tt
    after_disconnect-GivenIn symbol (ads, err x) e = tt
    after_disconnect-GivenIn symbol (ads, panic) e = tt

    after_callback-GivenIn :
        (ads : Ads Chan) (symbol : Text) (c : Client Chan) (o : Outcome Chan ℕ)
        → ask_handle communicate symbol c ≡ o
        → GivenIn symbol (after_callback communicate port_opened ads o)
    unfolding after_callback GivenIn
    after_callback-GivenIn ads symbol c (c', ok handle) e = (Given.asked c c' e, tt)
    after_callback-GivenIn ads symbol c (c', err x) e =
        elim (Bool-cases (is_closed c'.shared || should_disconnect x)) [
          | inl given_up ↦ rw given_up (
              after_disconnect-GivenIn symbol
                (disconnect communicate port_opened (record ads { connection = connected c' })) x)
          | inr stays ↦ rw stays tt
        ]
    after_callback-GivenIn ads symbol c (c', panic) e = tt

    get_symbol_handle-GivenIn :
        (ads : Ads Chan) (symbol : Text)
        → GivenIn symbol (get_symbol_handle communicate port_opened ads symbol)
    unfolding get_symbol_handle with_client GivenIn
    get_symbol_handle-GivenIn ads symbol = by_client (client ads.connection)
      where
        by_client :
            (o : Option (Client Chan))
            → GivenIn symbol
                (run_callback communicate port_opened ads (ask_handle communicate symbol) o)
        by_client none = tt
        by_client (some c) =
            after_callback-GivenIn ads symbol c (ask_handle communicate symbol c) refl

    insert_handle-Current :
        (conn : AdsConnection Chan) (symbol : Text) (handle : ℕ) (handles : SymbolHandles)
        → Current conn ((symbol, handle) ∷ [])
        → Current conn handles
        → Current conn (insert_handle symbol handle handles)
    unfolding insert_handle
    insert_handle-Current (connected c) symbol handle [] g h = g
    insert_handle-Current (connected c) symbol handle ((s, k) ∷ m) g h =
        elim (Bool-cases (same_text s symbol)) [
          | inl same ↦ rw same (
            subst (λ x. Given communicate c x handle) (sym (same_text-eq s symbol same)) g.0,
            h.1,
          )
          | inr other ↦ rw other (h.0, insert_handle-Current (connected c) symbol handle m g h.1)
        ]
    insert_handle-Current disconnected symbol handle handles g h = cc

    remember-IsCurrent :
        (symbol : Text) (r : Step Chan ℕ)
        → GivenIn symbol r
        → IsCurrent r.0
        → IsCurrent (remember symbol r).0
    unfolding GivenIn
    remember-IsCurrent symbol (ads, ok handle) g h =
        insert_handle-Current ads.connection symbol handle ads.symbol_handles g h
    remember-IsCurrent symbol (ads, err e) g h = h
    remember-IsCurrent symbol (ads, panic) g h = h

    ask_handle-Keeps : (symbol : Text) → Keeps (ask_handle communicate symbol)
    unfolding ask_handle
    ask_handle-Keeps symbol P stable c h =
        read_write-Stable stable c get_symhandle_byname 0 (replicate 4 0) symbol h

    pub symbol_handle-IsCurrent :
        (ads : Ads Chan) (symbol : Text)
        → IsCurrent ads
        → IsCurrent (symbol_handle communicate port_opened ads symbol).0
    unfolding symbol_handle get_symbol_handle
    symbol_handle-IsCurrent ads symbol h = by_handle (get_handle symbol ads.symbol_handles)
      where
        by_handle : (o : Option ℕ) → IsCurrent (or_ask communicate port_opened ads symbol o).0
        by_handle (some handle) = h
        by_handle none =
            remember-IsCurrent symbol (get_symbol_handle communicate port_opened ads symbol)
              (get_symbol_handle-GivenIn ads symbol)
              (with_client-IsCurrent ads (ask_handle communicate symbol) (ask_handle-Keeps symbol)
                h)

    pub with_handle-IsCurrent :
        {A : Type 0} (r : Step Chan ℕ) (callback : ℕ → Client Chan → Outcome Chan A)
        → ((handle : ℕ) → Keeps (callback handle))
        → IsCurrent r.0
        → IsCurrent (with_handle communicate port_opened r callback).0
    with_handle-IsCurrent (ads, ok handle) callback keeps h =
        with_client-IsCurrent ads (callback handle) (keeps handle) h
    with_handle-IsCurrent (ads, err e) callback keeps h = h
    with_handle-IsCurrent (ads, panic) callback keeps h = h
