-- ===== src/Connection/Modes.antt =====
-- What a connection attempt leaves: a client of a PLC that runs, or no client and none that is open.
use openstar_ads.Common.{
  ℕ, ◌≡◌, inl, inr, refl, sym, ap, ◌∙◌, List, [], Bool, true, false, Option, some, All, ◌+◌, length,
  subst, arith, Bool-cases, ==_iff,
}
use openstar_ads.Error.{Error, Result, ok, err, panic}
use openstar_ads.Common.Map.{keys}
use openstar_ads.Protocol.{AdsState, run, state_code, AdsStateInfo, try_from}
use openstar_ads.Protocol.Codec.{try_from-state_code}
use openstar_ads.Client.{Client}
use openstar_ads.Client.Commands.Subscriptions.{IsEnded, ClosedBy, close-start}
use openstar_ads.Client.Commands.{
  Outcome, Exchange, then_result, Closing, finished, unwound, then_step, read_state,
  read_device_info, write_control, close,
}
use openstar_ads.Connection.{
  AdsConnection, connected, disconnected, Attempt, same_state, is_run_mode, check_run, tell_to_run,
  set_to_run_mode, ensure_run_mode, dropped, disconnect, turned_down, settle, behind_disconnect,
  with_client, connect, is_connected,
}

same_state-eq : (a b : AdsState) → same_state a b ≡ true → a ≡ b
same_state-eq a b e =
    let same : state_code a ≡ state_code b = (==_iff (state_code a) (state_code b)).0 e in
    let back : ◌≡◌ {A = Option AdsState} (some a) (some b) =
      sym (try_from-state_code.0 a) ∙ ap try_from same ∙ try_from-state_code.0 b in
    cc

module _ {Chan : Type 0} where
  then_step-ok :
      {A B : Type 0} (o : Outcome Chan A) (f : Client Chan → A → Outcome Chan B) (c' : Client Chan)
      (b : B)
      → then_step o f ≡ (c', ok b)
      → (c : Client Chan) × (a : A) × (o ≡ (c, ok a)) × (f c a ≡ (c', ok b))
  then_step-ok (c, ok a) f c' b e = (c, a, refl, e)
  then_step-ok (c, err x) f c' b e = cc
  then_step-ok (c, panic) f c' b e = cc

  then_result-ok :
      {A B : Type 0} (o : Outcome Chan A) (f : A → Result B) (c' : Client Chan) (b : B)
      → then_result o f ≡ (c', ok b)
      → (a : A) × (o ≡ (c', ok a)) × (f a ≡ ok b)
  then_result-ok (c, ok a) f c' b e = (a, ap (λ p. (p.0, ok a)) e, ap (λ p. p.1) e)
  then_result-ok (c, err x) f c' b e = cc
  then_result-ok (c, panic) f c' b e = cc

  module _ (communicate : Exchange Chan) where
    -- The client `c'` comes from a read of the state that said that the PLC runs.
    abbrev pub SaidRun : Client Chan → Type 0
    SaidRun c' =
        (c : Client Chan) × (info : AdsStateInfo) × (read_state communicate c ≡ (c', ok info))
        × (info.ads_state ≡ run)

    check_run-SaidRun :
        (c₁ c c' : Client Chan) (info : AdsStateInfo)
        → read_state communicate c₁ ≡ (c, ok info)
        → check_run communicate c info ≡ (c', ok tt)
        → SaidRun c'
    unfolding check_run
    check_run-SaidRun c₁ c c' info read e = elim (Bool-cases (same_state info.ads_state run)) [
      | inl yes_run ↦
          let same : c ≡ c' = ap (λ p. p.0) (rw yes_run at e) in
          (c₁, info, read ∙ ap (λ d. (d, ok info)) same, same_state-eq info.ads_state run yes_run)
      | inr no_run ↦ cc (ap (λ p. p.1) (rw no_run at e))
    ]

    tell_to_run-SaidRun :
        (c c' : Client Chan) (device_state : ℕ)
        → tell_to_run communicate c device_state ≡ (c', ok tt)
        → SaidRun c'
    unfolding tell_to_run
    tell_to_run-SaidRun c c' device_state e =
        let (c₁, u, told, e₁) =
          then_step-ok (write_control communicate c run device_state) _ c' tt e in
        let (c₂, info, read, e₂) = then_step-ok (read_state communicate c₁) _ c' tt e₁ in
        check_run-SaidRun c₁ c₂ c' info read e₂

    set_to_run_mode-SaidRun :
        (c c' : Client Chan) → set_to_run_mode communicate c ≡ (c', ok tt) → SaidRun c'
    unfolding set_to_run_mode
    set_to_run_mode-SaidRun c c' e =
        let (c₁, device, seen, e₁) = then_step-ok (read_device_info communicate c) _ c' tt e in
        let (c₂, info, read, e₂) = then_step-ok (read_state communicate c₁) _ c' tt e₁ in
        elim (Bool-cases (same_state info.ads_state run)) [
          | inl yes_run ↦
              let same : c₂ ≡ c' = ap (λ p. p.0) (rw yes_run at e₂) in
              (
                c₁,
                info,
                read ∙ ap (λ d. (d, ok info)) same,
                same_state-eq info.ads_state run yes_run,
              )
          | inr no_run ↦ tell_to_run-SaidRun c₂ c' info.device_state (rw no_run at e₂)
        ]

    ensure_run_mode-SaidRun :
        (c c' : Client Chan) (allowed : Bool)
        → ensure_run_mode communicate c allowed ≡ (c', ok tt)
        → SaidRun c'
    unfolding ensure_run_mode is_run_mode
    ensure_run_mode-SaidRun c c' allowed e =
        let (c₁, running, asked, e₁) = then_step-ok (is_run_mode communicate c) _ c' tt e in
        let (info, read, test) = then_result-ok (read_state communicate c) _ c₁ running asked in
        elim (Bool-cases running) [
          | inl yes_run ↦
              let same : c₁ ≡ c' = ap (λ p. p.0) (rw yes_run at e₁) in
              (
                c,
                info,
                read ∙ ap (λ d. (d, ok info)) same,
                same_state-eq info.ads_state run (ground arith),
              )
          | inr no_run ↦ elim (Bool-cases allowed) [
            | inl may ↦ set_to_run_mode-SaidRun c₁ c' (rw (no_run, may) at e₁)
            | inr must_not ↦ cc (ap (λ p. p.1) (rw (no_run, must_not) at e₁))
          ]
        ]

    abbrev held : AdsConnection Chan → ℕ
    held (connected c) = 1
    held disconnected = 0

    -- The clients that an attempt takes in.
    abbrev pub taken_in : AdsConnection Chan → Result (Client Chan) → ℕ
    taken_in conn (ok c) = held conn + 1
    taken_in conn (err e) = held conn
    taken_in conn panic = held conn

    -- Every client that was taken in and is not held has been closed.
    abbrev pub AllClosed : ℕ → Attempt Chan → Type 0
    AllClosed clients a = All IsEnded a.given_up × (held a.connection + length a.given_up ≡ clients)

    -- Something that the attempt calls has panicked: the close of the client that it drops, `Client::new`,
    -- the exchanges about the run mode, or the close of a client that it turns down.
    pub data HasPanicked (conn : AdsConnection Chan) (port_opened allowed : Bool)
        (new_client : Result (Client Chan)) : Type 0 where
      in_drop :
          (c after : Client Chan)
          → conn ≡ connected c
          → close communicate c port_opened ≡ (after, unwound)
          → HasPanicked conn port_opened allowed new_client
      in_new : new_client ≡ panic → HasPanicked conn port_opened allowed new_client
      in_run_mode :
          (c after : Client Chan)
          → new_client ≡ ok c
          → ensure_run_mode communicate c allowed ≡ (after, panic)
          → HasPanicked conn port_opened allowed new_client
      in_turn_down :
          (c c' after : Client Chan) (e : Error)
          → new_client ≡ ok c
          → ensure_run_mode communicate c allowed ≡ (c', err e)
          → close communicate c' port_opened ≡ (after, unwound)
          → HasPanicked conn port_opened allowed new_client

    module _ (conn : AdsConnection Chan) (port_opened allowed : Bool)
        (new_client : Result (Client Chan)) where
      -- What an attempt leaves, by its result: a client of a PLC that said that it runs, on success,
      -- and none on an error, where every other client is closed; a panic comes from what it calls.
      abbrev pub FairBy : Attempt Chan → Result (Unit {0}) → Type 0
      FairBy a (ok u) =
          ((c : Client Chan) × (a.connection ≡ connected c) × SaidRun c)
          × AllClosed (taken_in conn new_client) a
      FairBy a (err e) = (a.connection ≡ disconnected) × AllClosed (taken_in conn new_client) a
      FairBy a panic = HasPanicked conn port_opened allowed new_client

      abbrev pub Fair : Attempt Chan → Type 0
      Fair a = FairBy a a.result

      turned_down-Fair :
          (given_up : List (Client Chan)) (e : Error) (c c' : Client Chan) (o : Closing Chan)
          → new_client ≡ ok c
          → ensure_run_mode communicate c allowed ≡ (c', err e)
          → close communicate c' port_opened ≡ o
          → ClosedBy communicate (keys c'.shared.subscribers) o
          → All IsEnded given_up
          → 1 + length given_up ≡ taken_in conn new_client
          → Fair (turned_down communicate given_up e o)
      turned_down-Fair given_up e c c' (d, finished sent) new asked closed w ended n =
          (refl, ((w, ended), omega (arith, n)))
      turned_down-Fair given_up e c c' (d, unwound) new asked closed w ended n =
          HasPanicked.in_turn_down c c' d e new asked closed

      settle-Fair :
          (given_up : List (Client Chan)) (c : Client Chan) (o : Outcome Chan (Unit {0}))
          → new_client ≡ ok c
          → ensure_run_mode communicate c allowed ≡ o
          → All IsEnded given_up
          → 1 + length given_up ≡ taken_in conn new_client
          → Fair (settle communicate given_up port_opened o)
      unfolding settle
      settle-Fair given_up c (c', ok u) new asked ended n =
          ((c', refl, ensure_run_mode-SaidRun c c' allowed asked), (ended, n))
      settle-Fair given_up c (c', err e) new asked ended n =
          turned_down-Fair given_up e c c' (close communicate c' port_opened) new asked refl
            (close-start communicate c' port_opened) ended n
      settle-Fair given_up c (c', panic) new asked ended n = HasPanicked.in_run_mode c c' new asked

      with_client-Fair :
          (given_up : List (Client Chan)) (r : Result (Client Chan))
          → new_client ≡ r
          → All IsEnded given_up
          → length given_up ≡ held conn
          → Fair (with_client communicate given_up port_opened allowed r)
      unfolding with_client
      with_client-Fair given_up (ok c) new ended n =
          settle-Fair given_up c (ensure_run_mode communicate c allowed) new refl ended
            (omega (arith, n, ap (taken_in conn) new))
      with_client-Fair given_up (err x) new ended n =
          (refl, (ended, omega (arith, n, ap (taken_in conn) new)))
      with_client-Fair given_up panic new ended n = HasPanicked.in_new new

      -- What a drop leaves, by its result.
      abbrev DroppedBy : Attempt Chan → Result (Unit {0}) → Type 0
      DroppedBy a (ok u) = All IsEnded a.given_up × (length a.given_up ≡ held conn)
      DroppedBy a (err e) = ⊥
      DroppedBy a panic =
          (c after : Client Chan) × ((conn ≡ connected c)
            × (close communicate c port_opened ≡ (after, unwound)))

      dropped-DroppedBy :
          (c : Client Chan) (o : Closing Chan)
          → conn ≡ connected c
          → close communicate c port_opened ≡ o
          → ClosedBy communicate (keys c.shared.subscribers) o
          → DroppedBy (dropped communicate o) (dropped communicate o).result
      dropped-DroppedBy c (d, finished sent) here closed w = ((w, tt), rw here refl)
      dropped-DroppedBy c (d, unwound) here closed w = (c, d, (here, closed))

      disconnect-DroppedBy :
          (before : AdsConnection Chan)
          → conn ≡ before
          → DroppedBy
              (disconnect communicate before port_opened)
              (disconnect communicate before port_opened).result
      unfolding disconnect
      disconnect-DroppedBy (connected c) here =
          dropped-DroppedBy c (close communicate c port_opened) here refl
            (close-start communicate c port_opened)
      disconnect-DroppedBy disconnected here = (tt, rw here refl)

      behind_disconnect-Fair :
          (drop : Attempt Chan) (r : Result (Unit {0})) (next : List (Client Chan) → Attempt Chan)
          → drop.result ≡ r
          → DroppedBy drop r
          → ((given_up : List (Client Chan))
              → All IsEnded given_up
              → length given_up ≡ held conn
              → Fair (next given_up))
          → Fair (behind_disconnect communicate drop r next)
      behind_disconnect-Fair drop (ok u) next e (ended, n) h = h drop.given_up ended n
      behind_disconnect-Fair drop (err x) next e w h = absurd w
      behind_disconnect-Fair drop panic next e w h =
          let (c, after, (here, closed)) = w in
          subst (FairBy drop) (sym e) (HasPanicked.in_drop c after here closed)

    -- `connect` on a connection that has an open client changes nothing. On any other it succeeds
    -- only with a client whose last read of the state said that the PLC runs, and holds no client
    -- when it returns an error. In both cases every other client is closed: the one that the
    -- connection had, and the new one that it does not keep. It panics only where `Client::new`, the
    -- exchanges about the run mode, or the close of one of these clients does.
    pub connect_lem :
        (conn : AdsConnection Chan) (port_opened allowed : Bool) (new_client : Result (Client Chan))
        → (is_connected conn ≡ true
            → connect communicate conn port_opened allowed new_client
              ≡ record { connection = conn; result = ok tt; given_up = [] })
          × (is_connected conn ≡ false
              → Fair conn port_opened allowed new_client
                  (connect communicate conn port_opened allowed new_client))
    unfolding connect
    connect_lem conn port_opened allowed new_client = (
      (λ e. rw e refl),
      (λ e. rw e (
          let drop = disconnect communicate conn port_opened in
          behind_disconnect-Fair conn port_opened allowed new_client drop drop.result
            (λ given_up. with_client communicate given_up port_opened allowed new_client) refl
            (disconnect-DroppedBy conn port_opened allowed new_client conn refl)
            (λ given_up.
              with_client-Fair conn port_opened allowed new_client given_up new_client refl))),
    )
