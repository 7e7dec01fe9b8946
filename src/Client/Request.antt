-- ===== src/Client/Request.antt =====
-- src/core/client.rs: `communicate`, cut at its two awaits: the request, the write, and the reply.
use openstar_ads.Common.{ℕ, ◌+◌, ◌%◌, ◌^◌, List, [], ◌++◌, ltb, leb, if◌then◌else◌}
use openstar_ads.Error.{Error, Result, ok, err, panic, ◌>>◌, guard, clone, io, from_kind, IoKind}
use openstar_ads.Protocol.{AdsHeader, Command, command_code, header_bytes, ams_header_size}
use openstar_ads.Client.{
  Client, Shared, register, drop_pending, tear_down, max_consecutive_timeouts,
}
use openstar_ads.Client.Buffers.{total_length, concat}
use openstar_ads.Client.Reply.{process_reply}

-- What the wait for the reply ended with: the read timeout, a reply channel whose sender is gone,
-- or what was sent on it.
pub data Waited : Type 0 where
  elapsed channel_closed : Waited
  replied : Result (AdsHeader × List ℕ) → Waited

-- A call that is under way: its invoke ID, and the bytes that it writes.
pub record Started (Chan : Type 0) : Type 0 where
  pub client : Client Chan
  pub result : Result (ℕ × List ℕ)

-- A step of a call: the client, the answers that `tear_down` sent, and the outcome.
pub record Stepped {ℓ} (Chan : Type 0) (A : Type ℓ) : Type ℓ where
  pub client : Client Chan
  pub sent : List (ℕ × Error)
  pub result : Result A

abbrev pub timed_out : Error
timed_out = io "waiting for response to dispatched request" (from_kind IoKind.timed_out)

module _ {Chan : Type 0} where
  -- The outgoing header; a length that exceeds 32 bits is an error.
  unfoldable pub request_header : Client Chan → Command → ℕ → ℕ → Result AdsHeader
  request_header c cmd payload_len id = do
    guard (ltb (ams_header_size + payload_len) (2 ^ 32)) Error.overflow
    ok (record {
      ams_cmd = 0;
      packet_length = ams_header_size + payload_len;
      dest_netid = c.target.netid;
      dest_port = c.target.port;
      src_netid = c.source.netid;
      src_port = c.source.port;
      command = command_code cmd;
      state_flags = 4;
      data_length = payload_len % 2 ^ 32;
      error_code = 0;
      invoke_id = id;
    })

  -- `self.shared.register(...)?`, and the packet that is then written.
  unfoldable pub enter : Client Chan → ℕ → List ℕ → Result (Shared Chan) → Started Chan
  enter c id packet (ok s) = record { client = record c { shared = s }; result = ok (id, packet) }
  enter c id packet (err e) = record { client = c; result = err e }
  enter c id packet panic = record { client = c; result = panic }

  -- The packet is built, if its header is, and the request is registered.
  unfoldable pub assemble : Client Chan → ℕ → ℕ → List (List ℕ) → Result AdsHeader → Started Chan
  assemble c id slot payload (ok h) =
      enter c id (header_bytes h ++ concat payload) (register c.shared id slot)
  assemble c id slot payload (err e) = record { client = c; result = err e }
  assemble c id slot payload panic = record { client = c; result = panic }

  -- `communicate` up to the write, for request `slot`: it takes an invoke ID, whatever comes next.
  unfoldable pub start : Client Chan → Command → List (List ℕ) → ℕ → Started Chan
  unfolding assemble enter
  start c cmd payload slot =
      assemble (record c { invoke_id = (c.invoke_id + 1) % 2 ^ 32 }) c.invoke_id slot payload
        (request_header c cmd (total_length payload) c.invoke_id)

  -- After the write: a failed write ends the connection, and with it the call.
  unfoldable pub after_write : Client Chan → ℕ → Result (Unit {0}) → Stepped Chan (Unit {0})
  after_write c id (ok u) = record { client = c; sent = []; result = ok tt }
  after_write c id panic = record {
    client = record c { shared = drop_pending c.shared id };
    sent = [];
    result = panic;
  }
  after_write c id (err e) =
      let (s, sent) = tear_down c.shared (clone e) in
      record { client = record c { shared = drop_pending s id }; sent = sent; result = err e }

  -- After the wait. The guard of the pending request is dropped on every way out.
  unfoldable pub after_wait :
      Client Chan → Command → ℕ → List (List ℕ) → Waited → Stepped Chan (ℕ × List (List ℕ))
  after_wait c cmd id bufs elapsed =
      let unanswered = (c.consecutive_timeouts + 1) % 2 ^ 32 in
      let (s, sent) =
        if leb max_consecutive_timeouts unanswered
        then tear_down c.shared (clone timed_out)
        else (c.shared, []) in
      record {
        client = record c { consecutive_timeouts = unanswered; shared = drop_pending s id };
        sent = sent;
        result = err timed_out;
      }
  after_wait c cmd id bufs channel_closed = record {
    client = record c { shared = drop_pending c.shared id };
    sent = [];
    result = err (
        Error.io_sync "waiting for response to dispatched request" "response channel was closed"
          id);
  }
  after_wait c cmd id bufs (replied (err e)) = record {
    client = record c { shared = drop_pending c.shared id };
    sent = [];
    result = err e;
  }
  after_wait c cmd id bufs (replied panic) = record {
    client = record c { shared = drop_pending c.shared id };
    sent = [];
    result = panic;
  }
  after_wait c cmd id bufs (replied (ok (h, payload))) = record {
    client = record c { consecutive_timeouts = 0; shared = drop_pending c.shared id };
    sent = [];
    result = process_reply c.target cmd id h payload bufs;
  }
