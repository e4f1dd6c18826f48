-- ===== src/Host/Hub.antt =====
-- crates/infinity-bridge-host/src/client.rs, and the state and the bookkeeping of
-- crates/infinity-bridge-host/src/hub.rs. Each operation runs under the lock of the map that it
-- changes, so it is one step. Time is an argument, and so is the sender of a new connection.
use infinity_wasm_bridge.Prelude.{
  ℕ, ◌+◌, ◌-◌, ◌%◌, ◌^◌, String, Bool, true, false, not, Option, none, some, List, [], ◌∷◌, map,
  ltb, any, is_empty, if◌then◌else◌, nat_eq,
}
use infinity_wasm_bridge.Prelude.HashMap
use infinity_wasm_bridge.Wire.Json.{Json}
use infinity_wasm_bridge.Wire.Msg.{HelloPayload, EventPayload}
use infinity_wasm_bridge.Host.Runtime.{Runtime}

-- `last_seen` is an `Instant`, a count of some unit of time; a `Duration` counts the same unit.
pub record Client (j : Json) (r : Runtime j) : Type 0 where
  pub tx : r.Sender
  pub greeting : Option (HelloPayload j.Value)
  pub last_seen : ℕ
  pub ready : Bool

pub record ClientInfo (V : Type 0) : Type 0 where
  pub id : ℕ
  pub greeting : Option (HelloPayload V)

-- The last two fields are the state that tokio keeps behind the senders in the two maps.
pub record Hub (j : Json) (r : Runtime j) : Type 0 where
  pub next_id : ℕ
  pub clients : List (ℕ × Client j r)
  pub pending : List (String × r.Oneshot)
  pub event_tx : r.Broadcast
  pub connection : r.Watch
  pub connect_notify : r.Notify
  pub net : r.Net
  pub acks : r.Acks

module _ (j : Json) (r : Runtime j) where
  open j use {Value}
  open r use {
    Sender, Net, Acks, Watch, Broadcast, send_replace, borrow, new_watch, new_broadcast, new_notify,
    notify_waiters, publish,
  }

  abbrev pub Clients : Type 0
  Clients = List (ℕ × Client j r)

  unfoldable pub new : ℕ → Net → Acks → Hub j r
  new event_capacity net acks = record {
    next_id = 1;
    clients = [];
    pending = [];
    event_tx = new_broadcast event_capacity;
    connection = new_watch false;
    connect_notify = new_notify;
    net = net;
    acks = acks;
  }

  abbrev pub fresh_client : Sender → ℕ → Client j r
  fresh_client tx now = record { tx = tx; greeting = none; last_seen = now; ready = false }

  -- `fetch_add` wraps at 64 bits.
  unfoldable pub register_client : Sender → ℕ → Hub j r → ℕ × Hub j r
  register_client tx now h = (
    h.next_id,
    record h {
      next_id = (h.next_id + 1) % 2 ^ 64;
      clients = HashMap.insert h.next_id (fresh_client tx now) h.clients;
      connection = send_replace true h.connection;
      connect_notify = notify_waiters h.connect_notify;
    },
  )

  unfoldable pub set_client_hello : ℕ → HelloPayload Value → Hub j r → Hub j r
  set_client_hello id greeting h = record h {
    clients = HashMap.modify id (λ c. record c { greeting = some greeting }) h.clients;
  }

  unfoldable pub unregister_client : ℕ → Hub j r → Hub j r
  unregister_client id h =
      let left = HashMap.remove id h.clients in
      record h { clients = left; connection = send_replace (not (is_empty left)) h.connection }

  unfoldable pub touch_client : ℕ → ℕ → Hub j r → Hub j r
  touch_client id now h = record h {
    clients = HashMap.modify id (λ c. record c { last_seen = now }) h.clients;
  }

  -- `now.duration_since(last_seen)` stops at zero, as `-` does.
  abbrev pub is_dead : ℕ → ℕ → Client j r → Bool
  is_dead timeout now c = ltb timeout (now - c.last_seen)

  unfoldable pub dead_ids : ℕ → ℕ → Clients → List ℕ
  dead_ids timeout now [] = []
  dead_ids timeout now ((id, c) ∷ cs) =
      let rest = dead_ids timeout now cs in if is_dead timeout now c then id ∷ rest else rest

  unfoldable pub remove_all : List ℕ → Clients → Clients
  remove_all [] cs = cs
  remove_all (id ∷ ids) cs = remove_all ids (HashMap.remove id cs)

  unfoldable pub reap_dead_clients : ℕ → ℕ → Hub j r → List ℕ × Hub j r
  reap_dead_clients timeout now h =
      let dead = dead_ids timeout now h.clients in
      let left = remove_all dead h.clients in
      (
        dead,
        record h {
          clients = left;
          connection =
              if is_empty dead
              then h.connection
              else send_replace (not (is_empty left)) h.connection;
        },
      )

  unfoldable pub set_client_ready : ℕ → Bool → Hub j r → Hub j r
  set_client_ready id ready h = record h {
    clients = HashMap.modify id (λ c. record c { ready = ready }) h.clients;
  }

  unfoldable pub is_connected : Hub j r → Bool
  is_connected h = not (is_empty h.clients)

  abbrev pub any_ready : Clients → Bool
  any_ready cs = any (λ e. e.1.ready) cs

  unfoldable pub is_ready : Hub j r → Bool
  is_ready h = any_ready h.clients

  unfoldable pub connected_clients : Hub j r → List (ClientInfo Value)
  connected_clients h = map (λ e. record { id = e.0; greeting = e.1.greeting }) h.clients

  -- The value that `subscribe_connection_status` shows.
  unfoldable pub connection_status : Hub j r → Bool
  connection_status h = borrow h.connection

  unfoldable pub subscribe_events : Hub j r → r.Subscriber × Hub j r
  subscribe_events h = let (s, b) = r.subscribe h.event_tx in (s, record h { event_tx = b })

  unfoldable pub dispatch_event : EventPayload Value → Hub j r → Hub j r
  dispatch_event event h = record h { event_tx = publish event h.event_tx }
