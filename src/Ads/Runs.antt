-- ===== src/Ads/Runs.antt =====
-- Examples of sessions with a PLC that gives a handle for each name.
use openstar_ads.Common.{
  ℕ, Option, none, some, ◌≡◌, ◌≢◌, refl, List, [], ◌∷◌, ◌++◌, map, true, false,
}
use openstar_ads.Error.{Error, ok, err}
use openstar_ads.NetId.{local}
use openstar_ads.Protocol.{Command}
use openstar_ads.Client.{Client, new_shared}
use openstar_ads.Client.Commands.{Exchange, read_state}
use openstar_ads.Connection.{connected, ensure_run_mode, is_run_mode, is_connected, client}
use openstar_ads.Symbol.{Text}
use openstar_ads.Ads.{
  Ads, new, connect, symbol_handle, get_symbol_handle, remember, ads_is_connected,
}
use openstar_ads.Client.Commands.Refusals.{Refused, RefusesClosed}
use openstar_ads.Ads.Sessions.{
  Op, connect_op, read_symbol_op, disconnect_op, others, session, session-IsCurrent,
}
use openstar_ads.Ads.Handles.{IsCurrent}
use openstar_ads.Ads.Cache.{symbol_handle-again}
use openstar_ads.Ads.Retry.{connect_with_retry, returned, still_trying, connect_with_retry_lem}

abbrev fresh : Client ℕ
fresh = record {
  source = record { netid = local; port = 32905 };
  target = record { netid = local; port = 851 };
  invoke_id = 1;
  consecutive_timeouts = 0;
  shared = new_shared;
}

-- A PLC that runs, and that answers a request for a handle with 7.
abbrev answering : Exchange ℕ
answering c Command.read_write payload bufs =
    (c, ok (8, (4 ∷ 0 ∷ 0 ∷ 0 ∷ []) ∷ (7 ∷ 0 ∷ 0 ∷ 0 ∷ []) ∷ []))
answering c Command.read payload bufs = (c, ok (6, (2 ∷ 0 ∷ 0 ∷ 0 ∷ []) ∷ (1 ∷ 2 ∷ []) ∷ []))
answering c cmd payload bufs = (c, ok (4, (5 ∷ 0 ∷ 0 ∷ 0 ∷ []) ∷ []))

abbrev speed : Text
speed = b'S' ∷ []

abbrev at_start : Ads ℕ
at_start = record { connection = connected fresh; symbol_handles = [] }

abbrev with_speed : Ads ℕ
with_speed = record at_start { symbol_handles = (speed, 7) ∷ [] }

speed_asked : symbol_handle answering true at_start speed ≡ (with_speed, ok 7)
unfolding symbol_handle openstar_ads.Ads.get_symbol_handle openstar_ads.Ads.with_client
    openstar_ads.Ads.after_callback openstar_ads.Ads.ask_handle openstar_ads.Ads.get_handle
    openstar_ads.Ads.insert_handle client openstar_ads.Client.is_closed
    openstar_ads.Client.Commands.read_write openstar_ads.Wire.le_value
speed_asked = refl

symbol_handle-again_example :
    symbol_handle (λ c cmd payload bufs. (c, err Error.disconnected)) true with_speed speed
    ≡ (with_speed, ok 7)
symbol_handle-again_example =
    symbol_handle-again answering true at_start with_speed speed 7 speed_asked
      (λ c cmd payload bufs. (c, err Error.disconnected)) true

abbrev keep_text : Text → Text
keep_text text = text

abbrev some_ops : List (Op ℕ)
some_ops =
    connect_op false (ok fresh)
    ∷ read_symbol_op speed 2
    ∷ disconnect_op
    ∷ connect_op false (ok fresh)
    ∷ read_symbol_op speed 2
    ∷ others new_shared
    ∷ []

session-IsCurrent_example :
    IsCurrent answering (session answering true keep_text keep_text 10 some_ops new)
session-IsCurrent_example =
    session-IsCurrent answering true keep_text keep_text 10 some_ops new refl

-- The same PLC, behind a client that refuses once it is closed.
abbrev while_open : Option Error → Exchange ℕ
while_open none c cmd payload bufs = answering c cmd payload bufs
while_open (some reason) c cmd payload bufs = (c, err Error.disconnected)

abbrev careful : Exchange ℕ
careful c cmd payload bufs = while_open c.shared.closed c cmd payload bufs

while_open-Refused :
    (closed : Option Error) (c : Client ℕ) (cmd : Command) (payload bufs : List (List ℕ))
    → closed ≢ none
    → c.shared.closed ≢ none
    → Refused (while_open closed c cmd payload bufs)
while_open-Refused none c cmd payload bufs w ended = absurd (w refl)
while_open-Refused (some reason) c cmd payload bufs w ended = (ended, λ p. cc)

careful-RefusesClosed : RefusesClosed careful
careful-RefusesClosed c cmd payload bufs ended =
    while_open-Refused c.shared.closed c cmd payload bufs ended ended

fresh_ready : ensure_run_mode careful fresh false ≡ (fresh, ok tt)
unfolding ensure_run_mode is_run_mode read_state openstar_ads.Client.Commands.state_info
    openstar_ads.Protocol.try_from openstar_ads.Wire.le_value openstar_ads.Protocol.state_code
fresh_ready = refl

abbrev two_refusals : List Error
two_refusals = Error.disconnected ∷ Error.overflow ∷ []

connect_with_retry_lem_example :
    ((connect_with_retry careful true false new (map (λ e. err e) two_refusals)).1 ≡ still_trying)
    × (connect_with_retry careful true false new (map (λ e. err e) two_refusals ++ (ok fresh ∷ []))
        ≡ (at_start, returned))
unfolding is_connected
connect_with_retry_lem_example =
    connect_with_retry_lem careful true false careful-RefusesClosed new two_refusals fresh fresh []
      refl fresh_ready

-- The same PLC after a restart: it gives the handle 9 for each name.
abbrev renumbered : Exchange ℕ
renumbered c Command.read_write payload bufs =
    (c, ok (8, (4 ∷ 0 ∷ 0 ∷ 0 ∷ []) ∷ (9 ∷ 0 ∷ 0 ∷ 0 ∷ []) ∷ []))
renumbered c cmd payload bufs = answering c cmd payload bufs

-- A task is given 7; before it keeps the handle, another task has connected anew. The handle of the
-- old connection is then kept, and given for the new one, on which the PLC would give 9.
late_handle :
    (get_symbol_handle answering true at_start speed ≡ (at_start, ok 7))
    × (let late = (remember speed (at_start, ok 7)).0 in
        (symbol_handle renumbered true late speed ≡ (late, ok 7))
        × (get_symbol_handle renumbered true late speed ≡ (late, ok 9)))
unfolding symbol_handle get_symbol_handle openstar_ads.Ads.with_client
    openstar_ads.Ads.after_callback openstar_ads.Ads.ask_handle openstar_ads.Ads.get_handle
    openstar_ads.Ads.insert_handle client openstar_ads.Client.is_closed
    openstar_ads.Client.Commands.read_write openstar_ads.Wire.le_value
late_handle = (refl, (refl, refl))
