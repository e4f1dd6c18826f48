-- ===== src/Host/Machine.antt =====
-- The server as one machine: its hub, and the reader and the ping task of each connection
-- (`handle_socket` of crates/infinity-bridge-host/src/server.rs), interleaved in any order with what
-- the application asks of the hub.
use infinity_wasm_bridge.Prelude.{ℕ, ◌+◌, ◌^◌, ◌<◌, ◌≡◌, Bool, true, false, some, List, [], nat_eq}
use infinity_wasm_bridge.Prelude.HashMap
use infinity_wasm_bridge.Wire.Json.{Json}
use infinity_wasm_bridge.Host.Runtime.{Runtime}
use infinity_wasm_bridge.Host.Hub.{Hub, new, register_client, unregister_client}
use infinity_wasm_bridge.Host.Steps.{Op, step}
use infinity_wasm_bridge.Host.Frame.{IsTraffic}
use infinity_wasm_bridge.Host.Server.{Signal, reaped, goes_on, gives_up, read_round, ping_tick}

-- The tasks of a connection: whether its reader and its ping task run, and whether the ping task has
-- sent on `reaped_tx`.
pub record Connection : Type 0 where
  pub reads : Bool
  pub pings : Bool
  pub signalled : Bool

abbrev pub fresh_connection : Connection
fresh_connection = record { reads = true; pings = true; signalled = false }

-- The reader ends, and aborts the ping task.
abbrev pub ended : Connection → Connection
ended k = record k { reads = false; pings = false }

abbrev pub gave_signal : Connection → Connection
gave_signal k = record k { pings = false; signalled = true }

pub record System (j : Json) (r : Runtime j) : Type 0 where
  pub hub : Hub j r
  pub connections : List (ℕ × Connection)

module _ (j : Json) (r : Runtime j) where
  unfoldable pub accept : r.Sender → ℕ → System j r → System j r
  accept tx now s =
      let (id, h) = register_client j r tx now s.hub in
      record { hub = h; connections = HashMap.insert id fresh_connection s.connections }

  -- One round of the reader of a connection.
  unfoldable pub read : ℕ → Signal j.Text → System j r → System j r
  read id signal s =
      let (again, h) = read_round j r id signal s.hub in
      elim again [
        | goes_on ↦ record s { hub = h }
        | gives_up ↦ record {
          hub = unregister_client j r id h;
          connections = HashMap.modify id ended s.connections;
        }
      ]

  -- One tick of the ping task of a connection.
  unfoldable pub tick : ℕ → ℕ → ℕ → ℕ → System j r → System j r
  tick id ping_timeout now millis s =
      let (again, h) = ping_tick j r id ping_timeout now millis s.hub in
      elim again [
        | goes_on ↦ record s { hub = h }
        | gives_up ↦ record { hub = h; connections = HashMap.modify id gave_signal s.connections }
      ]

  -- The reader hears `reaped` only where the ping task has sent it.
  abbrev pub IsHeard : Signal j.Text → Connection → Type 0
  IsHeard reaped k = k.signalled ≡ true
  IsHeard s k = Unit

  pub data Step (s : System j r) : System j r → Type 0 where
    accepts : (tx : r.Sender) (now : ℕ) → s.hub.next_id + 1 < 2 ^ 64 → Step s (accept tx now s)
    reads :
        (id : ℕ) (k : Connection) (signal : Signal j.Text)
        → HashMap.get id s.connections ≡ some k
        → k.reads ≡ true
        → IsHeard signal k
        → Step s (read id signal s)
    ticks :
        (id : ℕ) (k : Connection) (ping_timeout now millis : ℕ)
        → HashMap.get id s.connections ≡ some k
        → k.pings ≡ true
        → Step s (tick id ping_timeout now millis s)
    serves : (op : Op j r) → IsTraffic j r op → Step s (record s { hub = step j r s.hub op })

  -- The states that a server can come to.
  pub data Reach (capacity : ℕ) (net : r.Net) (acks : r.Acks) : System j r → Type 0 where
    start : Reach capacity net acks (record { hub = new j r capacity net acks; connections = [] })
    later : {s t : System j r} → Reach capacity net acks s → Step s t → Reach capacity net acks t
