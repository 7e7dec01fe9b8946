-- ===== src/Ads/Retry.antt =====
-- src/ads.rs: `Ads::connect_with_retry`, which tries until it is connected.
use openstar_ads.Common.{
  ℕ, ◌≡◌, ◌≢◌, refl, List, [], ◌∷◌, ◌++◌, map, Bool, true, false, if◌then◌else◌,
}
use openstar_ads.Error.{Error, Result, ok, err, panic}
use openstar_ads.Client.{Client, is_closed}
use openstar_ads.Client.Commands.{Exchange, Closing, finished, unwound, close}
use openstar_ads.Client.Commands.Refusals.{RefusesClosed, close-ends}
use openstar_ads.Symbol.{Text}
use openstar_ads.Connection.{
  AdsConnection, connected, disconnected, is_connected, ensure_run_mode, settle, dropped,
}
use openstar_ads.Connection
use openstar_ads.Ads.{Ads, Step, connect, disconnect, ads_is_connected}

-- What is seen of the loop: it has returned, it still tries, or it has panicked.
pub data Retrying : Type 0 where
  returned still_trying panicked : Retrying

module _ {Chan : Type 0} (communicate : Exchange Chan) (port_opened allowed : Bool) where
  -- One round of the loop. `rest` are the further rounds, after the pause.
  abbrev pub round : Step Chan (Unit {0}) → (Ads Chan → Ads Chan × Retrying) → Ads Chan × Retrying
  round (ads, ok u) rest = (ads, returned)
  round (ads, err e) rest = rest ads
  round (ads, panic) rest = (ads, panicked)

  -- The loop, for what `Client::new` answers in each of its rounds.
  unfoldable pub connect_with_retry : Ads Chan → List (Result (Client Chan)) → Ads Chan × Retrying
  connect_with_retry ads [] = (ads, (if ads_is_connected ads then returned else still_trying))
  connect_with_retry ads (new_client ∷ later) =
      let tried =
        round (connect communicate port_opened ads allowed new_client)
          (λ ads. connect_with_retry ads later) in
      if ads_is_connected ads then (ads, returned) else tried

  -- The state without a connection and without handles.
  abbrev pub gone : Ads Chan
  gone = record { connection = disconnected; symbol_handles = [] }

  -- The client that is still held, if there is one, can be dropped with no panic.
  abbrev pub CanDrop : Ads Chan → Type 0
  CanDrop ads = (disconnect communicate port_opened ads).1 ≡ ok tt

  connect-refused :
      (ads : Ads Chan) (e : Error)
      → ads_is_connected ads ≡ false
      → CanDrop ads
      → connect communicate port_opened ads allowed (err e) ≡ (gone, err e)
  unfolding connect disconnect Connection.connect Connection.with_client
  connect-refused ads e away drop = rw (away, drop) refl

  connect-accepted :
      (ads : Ads Chan) (c c' : Client Chan)
      → ads_is_connected ads ≡ false
      → CanDrop ads
      → ensure_run_mode communicate c allowed ≡ (c', ok tt)
      → connect communicate port_opened ads allowed (ok c)
        ≡ (record { connection = connected c'; symbol_handles = [] }, ok tt)
  unfolding connect disconnect Connection.connect Connection.with_client settle
  connect-accepted ads c c' away drop ready = rw (away, drop, ready) refl

  dropped-ends :
      (closing : Closing Chan) → closing.1 ≢ unwound → (dropped communicate closing).result ≡ ok tt
  dropped-ends (c, finished u) ends = refl
  dropped-ends (c, unwound) ends = absurd (ends refl)

  -- A client that is held with no connection is closed, so its deletions are refused.
  closed-CanDrop :
      RefusesClosed communicate
      → (conn : AdsConnection Chan) (handles : List (Text × ℕ)) → is_connected conn ≡ false
      → CanDrop (record { connection = conn; symbol_handles = handles })
  unfolding disconnect Connection.disconnect is_connected Connection.client is_closed
  closed-CanDrop refuses disconnected handles away = refl
  closed-CanDrop refuses (connected c) handles away =
      dropped-ends (close communicate c port_opened)
        (close-ends communicate refuses c port_opened λ open_now. cc)

  gone-CanDrop : CanDrop gone
  unfolding disconnect Connection.disconnect
  gone-CanDrop = refl

  accepted-last :
      (ads : Ads Chan) (refusals : List Error) (c c' : Client Chan)
      (later : List (Result (Client Chan)))
      → ads_is_connected ads ≡ false
      → CanDrop ads
      → ensure_run_mode communicate c allowed ≡ (c', ok tt)
      → connect_with_retry ads (map (λ e. err e) refusals ++ (ok c ∷ later))
        ≡ (record { connection = connected c'; symbol_handles = [] }, returned)
  unfolding connect_with_retry is_connected
  accepted-last ads [] c c' later away drop ready =
      rw (away, connect-accepted ads c c' away drop ready) refl
  accepted-last ads (e ∷ refusals) c c' later away drop ready =
      rw (away, connect-refused ads e away drop)
        (accepted-last gone refusals c c' later refl gone-CanDrop ready)

  refused-always :
      (ads : Ads Chan) (refusals : List Error)
      → ads_is_connected ads ≡ false
      → CanDrop ads
      → (connect_with_retry ads (map (λ e. err e) refusals)).1 ≡ still_trying
  unfolding connect_with_retry is_connected
  refused-always ads [] away drop = rw away refl
  refused-always ads (e ∷ refusals) away drop =
      rw (away, connect-refused ads e away drop) (refused-always gone refusals refl gone-CanDrop)

  pub connect_with_retry-connected :
      (ads : Ads Chan) (attempts : List (Result (Client Chan)))
      → ads_is_connected ads ≡ true
      → connect_with_retry ads attempts ≡ (ads, returned)
  unfolding connect_with_retry
  connect_with_retry-connected ads [] here = rw here refl
  connect_with_retry-connected ads (new_client ∷ later) here = rw here refl

  -- `connect_with_retry` without a connection, where a client that is closed refuses each exchange with
  -- no panic: as long as `Client::new` is refused it tries on, however
  -- often that is, and on the first client that is accepted, with a PLC in run mode or brought into it,
  -- it returns. It is then connected by this client, and keeps no handle from before.
  pub connect_with_retry_lem :
      RefusesClosed communicate
      → (ads : Ads Chan) (refusals : List Error) (c c' : Client Chan)
        (later : List (Result (Client Chan)))
      → ads_is_connected ads ≡ false
      → ensure_run_mode communicate c allowed ≡ (c', ok tt)
      → ((connect_with_retry ads (map (λ e. err e) refusals)).1 ≡ still_trying)
        × (connect_with_retry ads (map (λ e. err e) refusals ++ (ok c ∷ later))
            ≡ (record { connection = connected c'; symbol_handles = [] }, returned))
  connect_with_retry_lem refuses ads refusals c c' later away ready =
      let drop = closed-CanDrop refuses ads.connection ads.symbol_handles away in
      (refused-always ads refusals away drop, accepted-last ads refusals c c' later away drop ready)
