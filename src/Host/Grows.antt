-- ===== src/Host/Grows.antt =====
-- What a step of the hub does to a channel: it puts texts at the end of its queue, and neither opens
-- nor closes it.
use mathlib.Core.List.{append-nil, append_assoc}
use infinity_wasm_bridge.Prelude.{
  ℕ, String, ◌≡◌, refl, sym, ap, ◌∙◌, Bool, true, false, List, [], ◌∷◌, ◌++◌, arith, if◌then◌else◌,
  Bool-cases, Option-cases, Result-cases, inl, inr, is_empty, nat_eq,
}
use infinity_wasm_bridge.Prelude.HashMap
use infinity_wasm_bridge.Wire.Json.{Json}
use infinity_wasm_bridge.Wire.Msg.{event, new_event}
use infinity_wasm_bridge.Wire.Encode.{to_json}
use infinity_wasm_bridge.Host.Runtime.{Runtime}
use infinity_wasm_bridge.Host.Hub.{
  Hub, Clients, any_ready, register_client, set_client_hello, unregister_client, touch_client,
  reap_dead_clients, set_client_ready, dispatch_event,
}
use infinity_wasm_bridge.Host.Send.{send_all, emit, send_to, broadcast}
use infinity_wasm_bridge.Host.Command.{begin, forget, deliver_all, deliver, finish, dispatch_ack}
use infinity_wasm_bridge.Host.Broadcasting.{net-send_all}
use infinity_wasm_bridge.Host.Steps.{
  Op, emits, sends, broadcasts, delivers, finishes, acknowledges, step,
}

module _ (j : Json) (r : Runtime j) (tx : r.Sender) where
  open r use {Net, send, is_open, queue}

  pub record Grows (n n' : Net) : Type 0 where
    pub more : List j.Text
    pub queue : queue tx n' ≡ queue tx n ++ more
    pub opened : is_open tx n' ≡ is_open tx n

  pub Grows-refl : (n : Net) → Grows n n
  Grows-refl n = record { more = []; queue = sym (append-nil (queue tx n)); opened = refl }

  pub Grows-trans : (k m n : Net) → Grows k m → Grows m n → Grows k n
  Grows-trans k m n a b = record {
    more = a.more ++ b.more;
    queue = b.queue ∙ ap (λ q. q ++ b.more) a.queue ∙ append_assoc (queue tx k) a.more b.more;
    opened = b.opened ∙ a.opened;
  }

  send-Grows : (other : r.Sender) (text : j.Text) (n : Net) → Grows n (send other text n).1
  send-Grows other text n =
      let (more, grown) = r.queue-send_grows other tx text n in
      record { more = more; queue = grown; opened = r.is_open-send other tx text n }

  skipped-Grows :
      (skipped : Bool) (other : r.Sender) (text : j.Text) (n : Net)
      → Grows n (if skipped then (false, n) else send other text n).1
  skipped-Grows true other text n = Grows-refl n
  skipped-Grows false other text n = send-Grows other text n

  deliver_all-Grows :
      (known : Bool) (text : j.Text) (cs : Clients j r) (d : ℕ) (n : Net)
      → Grows n (deliver_all j r known text cs d n).1
  unfolding deliver_all
  deliver_all-Grows known text [] d n = Grows-refl n
  deliver_all-Grows known text ((id, c) ∷ cs) d n =
      Grows-trans n _ _ (skipped-Grows _ c.tx text n) (deliver_all-Grows known text cs _ _)

  send_all-Grows :
      (text : j.Text) (cs : Clients j r) (f : ℕ) (n : Net) → Grows n (send_all j r text cs f n).1
  send_all-Grows text cs f n =
      rw (net-send_all j r text cs f 0 n) (deliver_all-Grows false text cs 0 n)

  send_to-Grows : (id : ℕ) (text : j.Text) (h : Hub j r) → Grows h.net (send_to j r id text h).1.net
  unfolding send_to
  send_to-Grows id text h = elim (Option-cases (HashMap.get id h.clients)) [
    | inl missing ↦ rw (send_to, missing) (Grows-refl h.net)
    | inr (c, found) ↦ rw (send_to, found) (send-Grows c.tx text h.net)
  ]

  emit-Grows :
      (name : String) (payload : j.Value) (h : Hub j r)
      → Grows h.net (emit j r name payload h).1.net
  unfolding emit
  emit-Grows name payload h = elim (Result-cases (to_json j (event (new_event name payload)))) [
    | inr (e, failed) ↦ rw (emit, failed) (Grows-refl h.net)
    | inl (text, printed) ↦
        rw (emit, printed)
          (elim (Bool-cases (is_empty h.clients)) [
            | inl vacant ↦ rw vacant (Grows-refl h.net)
            | inr manned ↦ rw manned (send_all-Grows text h.clients 0 h.net)
          ])
  ]

  broadcast-Grows : (text : j.Text) (h : Hub j r) → Grows h.net (broadcast j r text h).1.net
  unfolding broadcast
  broadcast-Grows text h = elim (Bool-cases (is_empty h.clients)) [
    | inl vacant ↦ rw (broadcast, vacant) (Grows-refl h.net)
    | inr manned ↦ rw (broadcast, manned) (send_all-Grows text h.clients 0 h.net)
  ]

  net-forget : (id : String) (h : Hub j r) → (forget j r id h).net ≡ h.net
  unfolding forget
  net-forget id h = ground arith

  net-deliver :
      (id : String) (text : j.Text) (h : Hub j r)
      → (deliver j r id text h).1.net ≡ (
          if is_empty h.clients
          then h.net
          else (deliver_all j r (any_ready j r h.clients) text h.clients 0 h.net).1)
  unfolding deliver forget
  net-deliver id text h = ground arith

  deliver-Grows :
      (id : String) (text : j.Text) (h : Hub j r) → Grows h.net (deliver j r id text h).1.net
  deliver-Grows id text h = rw (net-deliver id text h) (elim (Bool-cases (is_empty h.clients)) [
    | inl vacant ↦ rw vacant (Grows-refl h.net)
    | inr manned ↦ rw manned (deliver_all-Grows _ text h.clients 0 h.net)
  ])

  net-dispatch_ack : (a : _) (h : Hub j r) → (dispatch_ack j r a h).net ≡ h.net
  unfolding dispatch_ack
  net-dispatch_ack a h = ground arith

  pub step-Grows : (h : Hub j r) (op : Op j r) → Grows h.net (step j r h op).net
  unfolding step register_client set_client_hello unregister_client touch_client set_client_ready
      reap_dead_clients dispatch_event begin finish
  step-Grows h (emits name payload) = emit-Grows name payload h
  step-Grows h (sends id text) = send_to-Grows id text h
  step-Grows h (broadcasts text) = broadcast-Grows text h
  step-Grows h (delivers id text) = deliver-Grows id text h
  step-Grows h (finishes id timeout waited) = rw (net-forget id h) (Grows-refl h.net)
  step-Grows h (acknowledges a) = rw (net-dispatch_ack a h) (Grows-refl h.net)
  step-Grows h op = Grows-refl h.net
