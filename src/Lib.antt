-- ===== src/Lib.antt =====
-- A model of openstar-ads, a client library for the ADS protocol of Beckhoff PLCs, and its proofs.
--
-- The library talks to a PLC over one TCP connection. A `Client` (src/core/client.rs) sends requests
-- and waits for their replies; a reader task takes packets off the socket and hands replies to the
-- calls that wait for them, and the samples of notifications to subscribers. Both work on `Shared`,
-- which holds the pending requests, the subscribers, and the reason for which the connection ended.
-- On top of the client, the symbol and type information of a PLC is read and decoded. `Ads` holds a
-- connection that may come and go, and the handles of the symbols that were asked for on it; it reads
-- symbols, calls methods, and subscribes to a symbol's values as a tree or as a flat map.
--
-- The parts and their files:
--   Common, Wire         lists and maps; little-endian fields in a byte slice
--   Error                src/error.rs: errors, and the table of ADS codes with its search
--   NetId                src/core/netid.rs: NetIDs and addresses, their parsing and printing
--   Protocol             src/core/protocol.rs: commands, states, the AMS header, request structures
--   Notification         src/core/notification.rs: `Notification::new` and its iterator
--   Client               src/core/client.rs: `Client`, `Shared` and its operations
--   Client.Request       `communicate` up to the write, after the write, and after the wait
--   Client.Reply         what `communicate` does with a reply; Client.Buffers: the caller's buffers
--   Client.Communicate   the three parts of `communicate` put together
--   Client.Reader        `ClientReceiver::reader_work` and the task that runs it
--   Client.Lifecycle     calls, replies, guards and `tear_down` as interleaved steps
--   Client.Setup         `Timeouts` and `Client::new`, on what the socket does
--   Client.Commands      `read`, `write`, ..., `add_notification`, `delete_notification`, `close`
--   Symbol               src/symbol/type.rs: symbols, types, and the decoders of the uploads
--   Symbol.ByName        the decoder of a single type, which is asked for by name
--   Symbol.Format, Symbol.Layout, Symbol.MethodLayout, Symbol.Variants  encoders of the uploads, for
--                        the proofs; Symbol.Outcomes: what symbol data says, entry by entry
--   Symbol.Tree          src/symbol/type_tree.rs: the tree of a symbol's type
--   Symbol.Tree.Flat     src/symbol/map.rs: `SymbolTypeMap::from_tree`
--   Symbol.Values        src/symbol/tree.rs: `SymbolTree`, its reading, paths and time stamps
--   Symbol.Values.Visit  its `Deserializer`, as the calls that it makes of a visitor;
--                        Symbol.Values.Visit.Rebuild: a visitor that builds a tree of them
--   Symbol.Values.Primitive  src/symbol/map.rs: `read_from_bytes` and `SymbolMap::from_bytes`
--   Connection           src/connection.rs: `AdsConnection`, and the run mode of the PLC
--   Ads                  src/ads.rs: `Ads`, its calls of the client, and the symbol handles
--   Ads.Subscribe, Ads.Describe, Ads.Retry  its subscriptions, type trees, and `connect_with_retry`
--   Ads.Sessions         sequences of its operations, for the proofs
--   DataTypes            src/data_types and src/params.rs: truth values, texts, times, parameters
-- The other modules hold the proofs, each named for what it is about, and the examples (Runs, Traces,
-- Answered).
--
-- How the code is read:
--   A panic is an outcome of its own, beside a value and an error. Bytes are numbers below 256, and
--   numbers of w bits wrap at `2 ^ w` where the code lets them. `entry_size - 4` on a length below
--   4 panics: without overflow checks it wraps, and the `split_at` behind it panics. Sums of array
--   bounds and of offsets wrap, as in a release build. `repr(C)` structures are their fields in
--   order, little-endian.
--   A pending request is named by a number, in place of its channel. What `mpsc::Sender::try_send`
--   answers, what the socket does with a write, and what a wait ends with, are arguments. So is
--   `String::from_utf8_lossy`, a function `lossy` on bytes, which the round trips take to leave
--   their texts alone. The text of an `Error::Other` is kept without the numbers in it.
--   Third-party code is a parameter as well: `datetime` is what chrono makes of the parts of a date,
--   and `to_f64` what `Extended::to_f64` makes of ten bytes. `str::to_lowercase` is the function
--   `to_lowercase`. Floats are their bits; the payload of a NaN is kept where an `f32` becomes an `f64`.
--   A type that is read from bytes is those bytes. An operation of `Ads` is one step, as it is where
--   no other task uses the same `Ads` meanwhile; what `Client::new` answers is an argument of `connect`.
--   `tear_down` is one step in Client, and three in Client.Lifecycle, where other tasks may come
--   between its locks. Each of the other steps there holds its lock from its first to its last access,
--   and an answer is counted with the removal that comes before it.
--
-- Bounds and fuel: the samples of a notification take as much fuel as the message has bytes; the
-- reader takes more fuel than its socket has bytes; the loops over uploads take the length of the
-- data, and the search for an error's text the length of the table. In each case it is proved that
-- this is enough. The fuel of a type tree is the depth of its calls, for which a rank of the types
-- gives a bound; a stack that is too small for it is a panic in `get_dynamic_type_tree`. The rounds of
-- `connect_with_retry` are as many as the outcomes that are given. The visitor takes as much
-- fuel as its tree has nodes. The interleaved steps are followed as long as the invoke IDs do not wrap.
--
-- Not modelled: sockets, timers and the spawning and aborting of tasks; logging and the printing of
-- values; the setters of `AdsBuilder`; the numbers of src/data_types that only wrap a number; what
-- other visitors and seeds of serde do with the calls that they get.
pub mod Common
pub mod Error
pub mod Wire
pub mod NetId
pub mod Protocol
pub mod Notification
pub mod Client
pub mod Symbol
pub mod Connection
pub mod Ads
pub mod DataTypes
