-- ===== src/Client/Setup.antt =====
-- src/core/client.rs: `Timeouts`, and `Client::new`, which sets a connection up; src/error.rs: the
-- contexts of its errors.
use openstar_ads.Common.{
  ℕ, String, List, [], ◌∷◌, ◌++◌, Bool, true, false, Option, none, some, leb, if◌then◌else◌, take,
  replicate,
}
use openstar_ads.Error.{Error, IoError, IoKind, Result, ok, err, ◌>>=◌}
use openstar_ads.NetId.{AmsAddr}
use openstar_ads.Client.{Client, new_shared}
use openstar_ads.Client.Commands.{requested_source}

-- A limit is a number of milliseconds, or none.
pub record Timeouts : Type 0 where
  pub connect : Option ℕ
  pub read : Option ℕ
  pub write : Option ℕ

-- `Timeouts::new` and `Timeouts::none`.
abbrev pub same_timeouts : ℕ → Timeouts
same_timeouts duration = record {
  connect = some duration;
  read = some duration;
  write = some duration;
}

abbrev pub no_timeouts : Timeouts
no_timeouts = record { connect = none; read = none; write = none }

-- `io::Result`, and how long it takes to come.
pub data IoResult (A : Type 0) : Type 0 where
  done : A → IoResult A
  failed : IoError → IoResult A

pub record Awaited (A : Type 0) : Type 0 where
  pub after : ℕ
  pub result : IoResult A

-- `ErrContext::ctx`, on a result and on one that may have come too late.
unfoldable pub ctx : {A : Type 0} → String → IoResult A → Result A
ctx context (done a) = ok a
ctx context (failed e) = err (Error.io context e)

unfoldable pub timed_ctx : {A : Type 0} → String → ℕ → Awaited A → Result A
unfolding ctx
timed_ctx context limit w =
    if leb w.after limit
    then ctx context w.result
    else err (
        Error.io context
          (record { kind = IoKind.timed_out; payload = some "deadline has elapsed" }))

-- An operation with its own context for the case of a limit.
abbrev pub within : {A : Type 0} → Option ℕ → String → String → Awaited A → Result A
within none plain timed w = ctx plain w.result
within (some limit) plain timed w = timed_ctx timed limit w

-- What the socket does: the connection, the option, the write of the request, and the bytes that a
-- single read takes.
pub record Socket : Type 0 where
  pub connecting : Awaited (Unit {0})
  pub nodelay : IoResult (Unit {0})
  pub writing : Awaited (Unit {0})
  pub reading : Awaited (List ℕ)

-- The message that requests a port.
abbrev pub request_port_msg : List ℕ
request_port_msg = 0 ∷ 16 ∷ 2 ∷ 0 ∷ 0 ∷ 0 ∷ 0 ∷ 0 ∷ []

-- A buffer of fourteen zeros after the read.
abbrev pub in_reply : List ℕ → List ℕ
in_reply bytes = take 14 (bytes ++ replicate 14 0)

-- The source, and whether the router opened a port for it.
unfoldable pub choose_source : Timeouts → Socket → Option AmsAddr → Result (AmsAddr × Bool)
unfolding timed_ctx ctx
choose_source timeouts socket (some addr) = ok (addr, false)
choose_source timeouts socket none = do
  written ←
      within timeouts.write "requesting port from router"
        "requesting port from router (with timeout)" socket.writing
  bytes ←
      within timeouts.read "requesting port from router"
        "requesting port from router (with timeout)" socket.reading
  addr ← requested_source (in_reply bytes)
  ok (addr, true)

-- The client that `new` makes.
abbrev pub fresh_client : {Chan : Type 0} → AmsAddr → AmsAddr → Client Chan
fresh_client source target = record {
  source = source;
  target = target;
  invoke_id = 1;
  consecutive_timeouts = 0;
  shared = new_shared;
}

-- `Client::new`: the client, and `source_port_opened`.
unfoldable pub set_up :
    {Chan : Type 0} → Timeouts → AmsAddr → Option AmsAddr → Socket → Result (Client Chan × Bool)
unfolding choose_source
set_up timeouts target source socket = do
  connected ←
      within timeouts.connect "establishing connection to remote ADS router"
        "establishing connection to remote ADS router (with timeout)" socket.connecting
  set ← ctx "setting client socket NODELAY" socket.nodelay
  (addr, opened) ← choose_source timeouts socket source
  ok (fresh_client addr target, opened)
