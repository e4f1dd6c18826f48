-- ===== src/Host/Frame.antt =====
-- What the steps of the hub leave alone.
use infinity_wasm_bridge.Prelude.{ℕ, String, ◌≡◌, refl, arith}
use infinity_wasm_bridge.Wire.Json.{Json}
use infinity_wasm_bridge.Host.Runtime.{Runtime}
use infinity_wasm_bridge.Host.Hub.{Hub, dispatch_event}
use infinity_wasm_bridge.Host.Send.{emit, send_to, broadcast}
use infinity_wasm_bridge.Host.Command.{begin, forget, deliver, finish, dispatch_ack}
use infinity_wasm_bridge.Host.Steps.{
  Op, registers, greets, unregisters, touches, reaps, readies, publishes, emits, sends, broadcasts,
  begins, delivers, finishes, acknowledges, step,
}

module _ (j : Json) (r : Runtime j) where
  -- The clients, the next id and the connection status are those of `h`.
  pub record SameClients (h h' : Hub j r) : Type 0 where
    pub clients : h'.clients ≡ h.clients
    pub connection : h'.connection ≡ h.connection
    pub next_id : h'.next_id ≡ h.next_id

  -- Messages, commands and acks: all but the operations on the map of clients.
  abbrev pub IsTraffic : Op j r → Type 0
  IsTraffic (registers tx now) = ⊥
  IsTraffic (greets id greeting) = ⊥
  IsTraffic (unregisters id) = ⊥
  IsTraffic (touches id now) = ⊥
  IsTraffic (reaps timeout now) = ⊥
  IsTraffic (readies id ready) = ⊥
  IsTraffic op = Unit

  pub forget-SameClients : (id : String) (h : Hub j r) → SameClients h (forget j r id h)
  unfolding forget
  forget-SameClients id h = ground arith

  emit-SameClients : (n : String) (p : j.Value) (h : Hub j r) → SameClients h (emit j r n p h).1
  unfolding emit
  emit-SameClients n p h = ground arith

  pub send_to-SameClients :
      (id : ℕ) (t : j.Text) (h : Hub j r) → SameClients h (send_to j r id t h).1
  unfolding send_to
  send_to-SameClients id t h = ground arith

  broadcast-SameClients : (t : j.Text) (h : Hub j r) → SameClients h (broadcast j r t h).1
  unfolding broadcast
  broadcast-SameClients t h = ground arith

  pub deliver-SameClients :
      (id : String) (t : j.Text) (h : Hub j r) → SameClients h (deliver j r id t h).1
  unfolding deliver forget
  deliver-SameClients id t h = ground arith

  pub dispatch_ack-SameClients : (a : _) (h : Hub j r) → SameClients h (dispatch_ack j r a h)
  unfolding dispatch_ack
  dispatch_ack-SameClients a h = ground arith

  -- No message, command or ack changes who is connected, what is known of them, or the status.
  pub step-SameClients : (h : Hub j r) (op : Op j r) → IsTraffic op → SameClients h (step j r h op)
  unfolding step dispatch_event begin finish
  step-SameClients h (publishes event) t = record {
    clients = refl;
    connection = refl;
    next_id = refl;
  }
  step-SameClients h (emits name payload) t = emit-SameClients name payload h
  step-SameClients h (sends id text) t = send_to-SameClients id text h
  step-SameClients h (broadcasts text) t = broadcast-SameClients text h
  step-SameClients h (begins id) t = record { clients = refl; connection = refl; next_id = refl }
  step-SameClients h (delivers id text) t = deliver-SameClients id text h
  step-SameClients h (finishes id timeout waited) t = forget-SameClients id h
  step-SameClients h (acknowledges a) t = dispatch_ack-SameClients a h
  step-SameClients h op t = absurd t
