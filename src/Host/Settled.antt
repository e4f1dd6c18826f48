-- ===== src/Host/Settled.antt =====
-- An ack that has arrived stays with the caller of `command` (crates/infinity-bridge-host/src/hub.rs).
use infinity_wasm_bridge.Prelude.{
  String, ◌≡◌, ◌≢◌, some, List, [], ◌∷◌, ◌∙◌, arith, string_eq, inl, inr, Option-cases,
}
use infinity_wasm_bridge.Prelude.HashMap
use infinity_wasm_bridge.Wire.Json.{Json}
use infinity_wasm_bridge.Wire.Msg.{AckPayload}
use infinity_wasm_bridge.Host.Runtime.{Runtime, value}
use infinity_wasm_bridge.Host.Hub.{Hub}
use infinity_wasm_bridge.Host.Command.{begin, forget, deliver, finish, dispatch_ack}
use infinity_wasm_bridge.Host.Steps.{Op, begins, delivers, finishes, acknowledges, step, run}
use infinity_wasm_bridge.Host.Slots.{HasSlots, distinct}
use infinity_wasm_bridge.Host.Pending.{step-SameSlots, deliver-SameSlots, step-HasSlots}

module _ (j : Json) (r : Runtime j) where
  open r use {Oneshot, Acks, poll}

  module _ (s : Oneshot) (x : AckPayload j.Value) where
    -- The value arrived.
    abbrev IsSettled : Hub j r → Type 0
    IsSettled h = poll s h.acks ≡ value x

    settled_apart :
        (h : Hub j r) (id : String) (t : Oneshot)
        → HasSlots j r h
        → IsSettled h
        → HashMap.get id h.pending ≡ some t
        → t ≢ s
    settled_apart h id t v p found = distinct j r h id t s v found (λ e. ground arith)

    forget-IsSettled :
        (id : String) (h : Hub j r) → HasSlots j r h → IsSettled h → IsSettled (forget j r id h)
    unfolding forget
    forget-IsSettled id h v p = elim (Option-cases (HashMap.get id h.pending)) [
      | inl missing ↦ rw (forget, missing) p
      | inr (t, found) ↦
          rw (forget, found) (r.poll-drop_other t s h.acks (settled_apart h id t v p found) ∙ p)
    ]

    dispatch_ack-IsSettled :
        (a : AckPayload j.Value) (h : Hub j r)
        → HasSlots j r h
        → IsSettled h
        → IsSettled (dispatch_ack j r a h)
    unfolding dispatch_ack
    dispatch_ack-IsSettled a h v p = elim (Option-cases (HashMap.get a.id h.pending)) [
      | inl missing ↦ rw (dispatch_ack, missing) p
      | inr (t, found) ↦
          rw (dispatch_ack, found)
            (r.poll-resolve_other t s a h.acks (settled_apart h a.id t v p found) ∙ p)
    ]

    begin-IsSettled :
        (id : String) (h : Hub j r) → HasSlots j r h → IsSettled h → IsSettled (begin j r id h).1
    unfolding begin
    begin-IsSettled id h v p =
        let (t, a) = r.channel h.acks in
        let apart : t ≢ s = λ e. ground (arith, r.poll-unused h.acks) in
        let kept : poll s a ≡ value x = r.poll-channel_other s h.acks apart ∙ p in
        elim (Option-cases (HashMap.get id h.pending)) [
          | inl missing ↦ rw (begin, missing) kept
          | inr (old, found) ↦
              rw (begin, found)
                (r.poll-drop_other old s a (settled_apart h id old v p found) ∙ kept)
        ]

    deliver-IsSettled :
        (id : String) (t : j.Text) (h : Hub j r)
        → HasSlots j r h
        → IsSettled h
        → IsSettled (deliver j r id t h).1
    deliver-IsSettled id t h v p = elim (deliver-SameSlots j r id t h) [
      | inl (_, same) ↦ rw same.acks p
      | inr same ↦ rw same.acks (forget-IsSettled id h v p)
    ]

    step-IsSettled :
        (h : Hub j r) (op : Op j r) → HasSlots j r h → IsSettled h → IsSettled (step j r h op)
    unfolding step finish
    step-IsSettled h (begins id) v p = begin-IsSettled id h v p
    step-IsSettled h (delivers id text) v p = deliver-IsSettled id text h v p
    step-IsSettled h (finishes id timeout waited) v p = forget-IsSettled id h v p
    step-IsSettled h (acknowledges a) v p = dispatch_ack-IsSettled a h v p
    step-IsSettled h op v p = rw (step-SameSlots j r h op tt).acks p

    pub run-IsSettled :
        (h : Hub j r) (ops : List (Op j r))
        → HasSlots j r h
        → IsSettled h
        → IsSettled (run j r h ops)
    unfolding run
    run-IsSettled h [] v p = p
    run-IsSettled h (op ∷ ops) v p =
        run-IsSettled (step j r h op) ops (step-HasSlots j r h op v) (step-IsSettled h op v p)
