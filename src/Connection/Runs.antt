-- ===== src/Connection/Runs.antt =====
-- Examples of connection attempts.
use openstar_ads.Common.{ℕ, ◌≡◌, ◌∷◌, [], refl, true, false}
use openstar_ads.Error.{ok}
use openstar_ads.NetId.{local}
use openstar_ads.Wire.{le_bytes}
use openstar_ads.Client.{Client, new_shared}
use openstar_ads.Client.Commands.{Exchange, read_state, state_info}
use openstar_ads.Protocol.{try_from, run}
use openstar_ads.Connection.{AdsConnection, connected, disconnected, Attempt, is_connected, connect}
use openstar_ads.Connection.Modes.{Fair, connect_lem}

abbrev fresh : Client ℕ
fresh = record {
  source = record { netid = local; port = 32905 };
  target = record { netid = local; port = 851 };
  invoke_id = 1;
  consecutive_timeouts = 0;
  shared = new_shared;
}

abbrev no_client : AdsConnection ℕ
no_client = disconnected

-- A PLC in state 5, which is `run`.
abbrev running : Exchange ℕ
running c cmd payload bufs = (c, ok (4, (5 ∷ 0 ∷ 0 ∷ 0 ∷ []) ∷ []))

connected_run :
    connect running no_client true false (ok fresh)
    ≡ record { connection = connected fresh; result = ok tt; given_up = [] }
unfolding connect is_connected openstar_ads.Connection.with_client
    openstar_ads.Connection.ensure_run_mode openstar_ads.Connection.is_run_mode read_state
    openstar_ads.Connection.disconnect openstar_ads.Connection.client openstar_ads.Connection.settle
    state_info try_from openstar_ads.Wire.le_value openstar_ads.Protocol.state_code
connected_run = refl

-- A PLC in state 6, which is `stop`.
abbrev stopped : Exchange ℕ
stopped c cmd payload bufs = (c, ok (4, (6 ∷ 0 ∷ 0 ∷ 0 ∷ []) ∷ []))

connect_lem_example :
    (is_connected no_client ≡ true
      → connect stopped no_client true false (ok fresh)
        ≡ record { connection = no_client; result = ok tt; given_up = [] })
    × (is_connected no_client ≡ false
        → Fair stopped no_client true false
            (ok fresh)
            (connect stopped no_client true false (ok fresh)))
connect_lem_example = connect_lem stopped no_client true false (ok fresh)
