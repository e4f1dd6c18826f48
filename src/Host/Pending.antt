-- ===== src/Host/Pending.antt =====
-- The life of a command (`command` and `dispatch_ack` of crates/infinity-bridge-host/src/hub.rs)
-- among the steps of the other tasks.
use infinity_wasm_bridge.Prelude.{
  ℕ, String, ◌≡◌, refl, none, List, [], ◌∷◌, arith, string_eq, inl, inr, ◌⊎◌,
}
use infinity_wasm_bridge.Prelude.HashMap
use infinity_wasm_bridge.Wire.Json.{Json}
use infinity_wasm_bridge.Host.Runtime.{Runtime}
use infinity_wasm_bridge.Host.Hub.{
  Hub, new, register_client, set_client_hello, unregister_client, touch_client, reap_dead_clients,
  set_client_ready, dispatch_event,
}
use infinity_wasm_bridge.Host.Send.{emit, send_to, broadcast}
use infinity_wasm_bridge.Host.Command.{forget, deliver, finish}
use infinity_wasm_bridge.Host.Steps.{
  Op, emits, sends, broadcasts, begins, delivers, finishes, acknowledges, step, run,
}
use infinity_wasm_bridge.Host.Slots.{
  HasSlots, SameSlots, forget-HasSlots, dispatch_ack-HasSlots, begin-HasSlots,
}

module _ (j : Json) (r : Runtime j) where
  open r use {Oneshot, Acks, poll}

  SameSlots-HasSlots : (h h' : Hub j r) → SameSlots j r h h' → HasSlots j r h → HasSlots j r h'
  SameSlots-HasSlots h h' same v = record {
    waits = rw (same.pending, same.acks) v.waits;
    apart = rw same.pending v.apart;
  }

  emit-SameSlots : (n : String) (p : j.Value) (h : Hub j r) → SameSlots j r h (emit j r n p h).1
  unfolding emit
  emit-SameSlots n p h = ground arith

  send_to-SameSlots : (id : ℕ) (t : j.Text) (h : Hub j r) → SameSlots j r h (send_to j r id t h).1
  unfolding send_to
  send_to-SameSlots id t h = ground arith

  broadcast-SameSlots : (t : j.Text) (h : Hub j r) → SameSlots j r h (broadcast j r t h).1
  unfolding broadcast
  broadcast-SameSlots t h = ground arith

  -- A failed delivery forgets the command, and one that succeeds leaves the channels alone.
  pub deliver-SameSlots :
      (id : String) (t : j.Text) (h : Hub j r)
      → let (failure, h') = deliver j r id t h in
        ((failure ≡ none) × SameSlots j r h h') ⊎ SameSlots j r (forget j r id h) h'
  unfolding deliver forget
  deliver-SameSlots id t h = ground arith

  -- The steps that are not about commands.
  abbrev pub IsSlotless : Op j r → Type 0
  IsSlotless (begins id) = ⊥
  IsSlotless (delivers id text) = ⊥
  IsSlotless (finishes id timeout waited) = ⊥
  IsSlotless (acknowledges a) = ⊥
  IsSlotless op = Unit

  pub step-SameSlots : (h : Hub j r) (op : Op j r) → IsSlotless op → SameSlots j r h (step j r h op)
  unfolding step register_client set_client_hello unregister_client touch_client reap_dead_clients
      set_client_ready dispatch_event
  step-SameSlots h (emits name payload) t = emit-SameSlots name payload h
  step-SameSlots h (sends id text) t = send_to-SameSlots id text h
  step-SameSlots h (broadcasts text) t = broadcast-SameSlots text h
  step-SameSlots h (begins id) t = absurd t
  step-SameSlots h (delivers id text) t = absurd t
  step-SameSlots h (finishes id timeout waited) t = absurd t
  step-SameSlots h (acknowledges a) t = absurd t
  step-SameSlots h op t = record { pending = refl; acks = refl }

  pub deliver-HasSlots :
      (id : String) (t : j.Text) (h : Hub j r)
      → HasSlots j r h
      → HasSlots j r (deliver j r id t h).1
  deliver-HasSlots id t h v = elim (deliver-SameSlots id t h) [
    | inl (_, same) ↦ SameSlots-HasSlots h _ same v
    | inr same ↦ SameSlots-HasSlots (forget j r id h) _ same (forget-HasSlots j r id h v)
  ]

  pub step-HasSlots : (h : Hub j r) (op : Op j r) → HasSlots j r h → HasSlots j r (step j r h op)
  unfolding step finish
  step-HasSlots h (begins id) v = begin-HasSlots j r id h v
  step-HasSlots h (delivers id text) v = deliver-HasSlots id text h v
  step-HasSlots h (finishes id timeout waited) v = forget-HasSlots j r id h v
  step-HasSlots h (acknowledges a) v = dispatch_ack-HasSlots j r a h v
  step-HasSlots h op v = SameSlots-HasSlots h _ (step-SameSlots h op tt) v

  pub run-HasSlots :
      (h : Hub j r) (ops : List (Op j r)) → HasSlots j r h → HasSlots j r (run j r h ops)
  unfolding run
  run-HasSlots h [] v = v
  run-HasSlots h (op ∷ ops) v = run-HasSlots (step j r h op) ops (step-HasSlots h op v)

  -- Whatever operations run on a new hub, the channel of each pending command waits, and no two
  -- commands share a channel.
  pub new-HasSlots :
      (capacity : ℕ) (net : r.Net) (acks : Acks) (ops : List (Op j r))
      → HasSlots j r (run j r (new j r capacity net acks) ops)
  unfolding new HashMap.get
  new-HasSlots capacity net acks ops =
      run-HasSlots _ ops
        (record { waits = λ id s e. ground arith; apart = λ id other s e f. ground arith })
