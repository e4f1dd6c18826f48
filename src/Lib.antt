-- ===== src/Lib.antt =====
-- infinity-wasm-bridge: an MSFS WASM gauge exchanges messages with a host application. The
-- gauge talks CommBus to a relay in the simulator's HTML engine, and the relay talks WebSocket
-- to the host.
--
-- The parts, and the files that model them:
-- * crates/infinity-bridge-wire, the messages: Wire. Wire.Msg has the payload types of
--   src/msg.rs and their constructors, Wire.Encode `to_json` and Wire.Decode `from_json`, both
--   written from the serde attributes on the types; Wire.Error is src/error.rs. Wire.Fields,
--   Wire.RoundTrip and Wire.Decoded are about the two functions, Wire.UnitTests and
--   Host.UnitTests hold the repository's own tests.
-- * crates/infinity-bridge-wasm, the gauge's side: Wasm. Wasm.Handler and Wasm.Router are the
--   handlers and the `Router` of src/bridge.rs (its builder method `fallback` sets the field
--   `on_unknown`), Wasm.Bridge is its `Bridge`: `new_bridge`, `dispatch` with its match in
--   `handle`, `send_response` and `emit`. Wasm.Routing, Wasm.Dispatch and Wasm.Relayed are
--   about them.
-- * crates/infinity-bridge-host, the host's side: Host. Host.Hub is src/client.rs with the
--   state and the bookkeeping of src/hub.rs, Host.Send its `emit`, `send_to` and `broadcast`,
--   Host.Command its `command` and `dispatch_ack`. Host.Steps makes a machine of the hub, whose
--   steps are what runs under its locks; Host.Call is `command` as a whole, with the steps of
--   other tasks in between. Host.Server is src/server.rs: the configuration, and of
--   `handle_socket` the reader (`read_loop` over `read_round`, with `handle_text` and its match
--   in `handle_message`) and a tick of the ping task; Host.Pings has the loop of the ping task
--   and Host.Writer the writer. Host.BridgeServer is the handle that an application holds.
--   Host.Waiting is `wait_connected`, Host.Machine the server as one machine: the hub with the
--   reader and the ping task of each connection. The other modules of Host are about these.
-- * examples/host-app/src/fake_gauge.rs, a gauge without the simulator: Gauge. Gauge.Fake is
--   its command handler and its reader, Gauge.Telemetry its telemetry task; Gauge.Replies,
--   Gauge.Session and Gauge.Bounds are about them and the host that reads the answers.
--   Gauge.Sim is the gauge that examples/wasm_gauge_example.rs shows in comments,
--   Gauge.Equipment is about its command, and Gauge.System puts it into the simulator: its
--   backend, its construction and its life cycle; Gauge.Steady is about all that it hears.
-- * ts/infinity-bridge-relay, the relay: Relay. Relay.Dedup is src/dedup.ts, Relay.State the
--   state of `BridgeRelay` in src/relay.ts, Relay.Bridge its handlers of messages, of
--   timeouts and of failed calls, Relay.Life its start and its end and the relay as a
--   machine, Relay.RetryTimer its two retry timers, Relay.Socket its WebSocket and when it
--   connects and binds again; Relay.Reconnect, Relay.Stays, Relay.Binding and Relay.Greeted
--   are about these. Relay.Forwarded and Relay.Through are about the way of a command from
--   the host to the gauge and back, Relay.Timers and Relay.Expiry about commands that are
--   not answered, Relay.Ring about the ring.
-- * rescript/infinity-bridge-relay, the same relay in ReScript: Rescript. Rescript.Bridge has
--   its parsers of src/Wire.res and its handlers of messages, timeouts and failed calls of
--   src/BridgeRelay.res, over the state of Relay, whose ring, bind, bus call and sending they
--   share; Rescript.Same, Rescript.Counter and Rescript.Runs compare the two.
-- * examples/host-app/src/main.rs, an application that shows the host's side off: App. App.Demo
--   has its demonstrations, each a step from a hub to a hub, and what it prints of their
--   results; App.Entries, App.Answered and App.Announced are about its run against the fake
--   gauge. App.Listener is its task that prints the events, App.Listened is about that.
-- * Prelude has the shared names, and Rust's `Result`, `HashMap` and decimal printing of a
--   `u64`.
--
-- What stands outside the repository is a parameter. Wire.Json is what is used of serde_json:
-- the values with their accessors, printing and parsing; a JSON text is passed on and never
-- looked into, so its type is abstract. Wasm.Bus is the trait `CommBusBackend`, which the
-- gauge's author implements; Gauge.System.Msfs is what the example of a gauge uses of the crate
-- `msfs`. Host.Runtime is what is used of tokio: unbounded mpsc channels for the connections,
-- oneshot channels for the acks, a watch channel for the connection status, a broadcast channel
-- for the events. Wire.Sample and Host.Sample give concrete ones that meet the laws. Commands'
-- ids, which the source draws from uuid, and points in time are arguments.
--
-- Rust's words: the field `ok` of an ack is `is_ok`, `data` of an event is `payload`, `hello`
-- of a client is `greeting`; `WireMsg::Event(EventPayload::new(n, d))` is `event (new_event n
-- d)`. The state that handlers share by `RefCell` is passed through them. A hash map is an
-- association list, whose order stands for the order in which the map is walked.
--
-- Bounds: client ids wrap at 2 ^ 64, the counter of failures of `emit` at 2 ^ 32, that of
-- deliveries of `command` at 2 ^ 64; a theorem that needs a counter not to wrap says so. No
-- loop takes fuel but the printing of a `u64`, which has 20 places for at most 20 digits; the
-- loops of the tasks run over the list of what happens.
--
-- Not modelled: logging, the axum server behind the routes, the application's task that prints
-- the connection status, the form of a struct as a JSON array, which serde also reads, JSON
-- objects with a key twice, and numbers that serde_json does not read back exactly; of the
-- relay, which reads and prints JSON too, this leaves out integers that JavaScript rounds, and
-- its console, and a socket that is closed before its event tells so; of the one in ReScript,
-- its start, its socket and its end, a command whose id is no string, which its parser lets
-- through, and a counter of requests past 2 ^ 31. A tick of the host's ping task is one step,
-- and so is the end of a reader, though other tasks can take the hub's lock in between.
pub mod Prelude
pub mod Wire
pub mod Wasm
pub mod Host
pub mod Gauge
pub mod Relay
pub mod Rescript
pub mod App
