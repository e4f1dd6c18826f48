-- ===== src/Host/Reachable.antt =====
-- Whom commands and events can reach: the channels of the clients, which are ready and which are open.
-- What the steps of a command and `emit` of crates/infinity-bridge-host/src/hub.rs leave of it.
use infinity_wasm_bridge.Prelude.{
  ℕ, suc, true, false, none, ok, inl, inr, Result-cases, String, ◌≡◌, refl, Bool, List, [], ◌∷◌,
  ◌∙◌, ap, map, arith, any, is_empty, All, not, ◌&&◌, ◌||◌, length, nat_eq,
}
use infinity_wasm_bridge.Prelude.HashMap
use infinity_wasm_bridge.Wire.Json.{Json}
use infinity_wasm_bridge.Wire.Msg.{event, new_event}
use infinity_wasm_bridge.Wire.Encode.{to_json}
use infinity_wasm_bridge.Host.Runtime.{Runtime}
use infinity_wasm_bridge.Host.Hub.{Hub, Clients, any_ready, is_ready, touch_client}
use infinity_wasm_bridge.Host.Send.{send_all, emit}
use infinity_wasm_bridge.Host.Command.{begin, forget, deliver_all, deliver, dispatch_ack}
use infinity_wasm_bridge.Host.Steps.{Op, touches, acknowledges, step, run}
use infinity_wasm_bridge.Host.Delivery.{any_target}
use infinity_wasm_bridge.Host.Broadcasting.{any_open, emit-result}
use infinity_wasm_bridge.Host.Returned.{immediate}

module _ (j : Json) (r : Runtime j) where
  open r use {Sender, Net, is_open}

  -- The channel of each client, and whether it is ready.
  abbrev pub channels : Clients j r → List (Sender × Bool)
  channels cs = map (λ b. (b.1.tx, b.1.ready)) cs

  -- The same channels, and the same of all channels open.
  pub record SameReach (h h' : Hub j r) : Type 0 where
    pub channels : channels h'.clients ≡ channels h.clients
    pub opened : (tx : Sender) → is_open tx h'.net ≡ is_open tx h.net

  pub SameReach-refl : (h : Hub j r) → SameReach h h
  SameReach-refl h = record { channels = refl; opened = λ tx. refl }

  pub SameReach-trans : (h i k : Hub j r) → SameReach h i → SameReach i k → SameReach h k
  SameReach-trans h i k a b = record {
    channels = b.channels ∙ a.channels;
    opened = λ tx. b.opened tx ∙ a.opened tx;
  }

  channels-modify :
      (id : ℕ) (now : ℕ) (cs : Clients j r)
      → channels (HashMap.modify id (λ c. record c { last_seen = now }) cs) ≡ channels cs
  unfolding HashMap.modify
  channels-modify id now [] = refl
  channels-modify id now ((i, c) ∷ cs) = ground (arith, channels-modify id now cs)

  touch_client-SameReach : (id now : ℕ) (h : Hub j r) → SameReach h (touch_client j r id now h)
  unfolding touch_client
  touch_client-SameReach id now h = record {
    channels = channels-modify id now h.clients;
    opened = λ tx. refl;
  }

  dispatch_ack-SameReach : (a : _) (h : Hub j r) → SameReach h (dispatch_ack j r a h)
  unfolding dispatch_ack
  dispatch_ack-SameReach a h = ground arith

  pub begin-SameReach : (id : String) (h : Hub j r) → SameReach h (begin j r id h).1
  unfolding begin
  begin-SameReach id h = record { channels = refl; opened = λ tx. refl }

  pub forget-SameReach : (id : String) (h : Hub j r) → SameReach h (forget j r id h)
  unfolding forget
  forget-SameReach id h = ground arith

  is_open-deliver_all :
      (known : Bool) (t : j.Text) (tx : Sender) (cs : Clients j r) (d : ℕ) (n : Net)
      → is_open tx (deliver_all j r known t cs d n).1 ≡ is_open tx n
  unfolding deliver_all
  is_open-deliver_all known t tx [] d n = refl
  is_open-deliver_all known t tx ((i, c) ∷ cs) d n =
      is_open-deliver_all known t tx cs _ _ ∙ ground (arith, r.is_open-send c.tx tx t n)

  pub is_open-send_all :
      (t : j.Text) (tx : Sender) (cs : Clients j r) (f : ℕ) (n : Net)
      → is_open tx (send_all j r t cs f n).1 ≡ is_open tx n
  unfolding send_all
  is_open-send_all t tx [] f n = refl
  is_open-send_all t tx ((i, c) ∷ cs) f n =
      is_open-send_all t tx cs _ _ ∙ r.is_open-send c.tx tx t n

  pub deliver-SameReach :
      (id : String) (t : j.Text) (h : Hub j r) → SameReach h (deliver j r id t h).1
  unfolding deliver forget
  deliver-SameReach id t h = record {
    channels = ground arith;
    opened =
        λ tx. ground (arith, is_open-deliver_all (any_ready j r h.clients) t tx h.clients 0 h.net);
  }

  pub emit-SameReach : (n : String) (p : j.Value) (h : Hub j r) → SameReach h (emit j r n p h).1
  unfolding emit
  emit-SameReach n p h = elim (Result-cases (to_json j (event (new_event n p)))) [
    | inr (e, failed) ↦ rw (failed, emit) (SameReach-refl h)
    | inl (t, printed) ↦
        rw (printed, emit)
          (record {
            channels = ground arith;
            opened = λ tx. ground (arith, is_open-send_all t tx h.clients 0 h.net);
          })
  ]

  -- What a reader does for a text that is an ack or means nothing to it.
  abbrev pub IsIncoming : Op j r → Type 0
  IsIncoming (touches id now) = Unit
  IsIncoming (acknowledges a) = Unit
  IsIncoming op = ⊥

  pub run-SameReach :
      (h : Hub j r) (ops : List (Op j r)) → All IsIncoming ops → SameReach h (run j r h ops)
  unfolding run step
  run-SameReach h [] a = SameReach-refl h
  run-SameReach h (touches id now ∷ ops) a =
      SameReach-trans h _ _ (touch_client-SameReach id now h)
        (run-SameReach (touch_client j r id now h) ops a.1)
  run-SameReach h (acknowledges x ∷ ops) a =
      SameReach-trans h _ _ (dispatch_ack-SameReach x h)
        (run-SameReach (dispatch_ack j r x h) ops a.1)
  run-SameReach h (op ∷ ops) a = absurd a.0

  any_ready-channels :
      (cs : Clients j r) → any_ready j r cs ≡ any (λ (c : Sender × Bool). c.1) (channels cs)
  any_ready-channels [] = refl
  any_ready-channels ((i, c) ∷ cs) = rw (any_ready-channels cs)

  is_empty-channels : (cs : Clients j r) → is_empty cs ≡ is_empty (channels cs)
  is_empty-channels [] = refl
  is_empty-channels ((i, c) ∷ cs) = refl

  pub length-channels : (cs : Clients j r) → length cs ≡ length (channels cs)
  length-channels [] = refl
  length-channels ((i, c) ∷ cs) = ap suc (length-channels cs)

  any_target-channels :
      (h : Hub j r) (cs : Clients j r)
      → any_target j r h cs
        ≡ any
            (λ (c : Sender × Bool).
              (c.1 || not (any (λ (d : Sender × Bool). d.1) (channels h.clients)))
              && is_open c.0 h.net)
            (channels cs)
  unfolding is_ready
  any_target-channels h [] = refl
  any_target-channels h ((i, c) ∷ cs) = rw (any_target-channels h cs, any_ready-channels h.clients)

  any_open-channels :
      (n : Net) (cs : Clients j r)
      → any_open j r n cs ≡ any (λ (c : Sender × Bool). is_open c.0 n) (channels cs)
  any_open-channels n [] = refl
  any_open-channels n ((i, c) ∷ cs) = rw (any_open-channels n cs)

  -- One client, which has not reported ready and whose channel is open.
  pub record HasOne (tx : Sender) (h : Hub j r) : Type 0 where
    pub channels : channels h.clients ≡ (tx, false) ∷ []
    pub opened : is_open tx h.net ≡ true

  pub SameReach-HasOne :
      (tx : Sender) (h h' : Hub j r) → SameReach h h' → HasOne tx h → HasOne tx h'
  SameReach-HasOne tx h h' same one = record {
    channels = same.channels ∙ one.channels;
    opened = same.opened tx ∙ one.opened;
  }

  module _ (tx : Sender) (h : Hub j r) (one : HasOne tx h) where
    pub HasOne-length : length h.clients ≡ 1
    HasOne-length = rw (length-channels h.clients, one.channels) refl

    pub HasOne-immediate : immediate j r h ≡ none
    HasOne-immediate =
        rw (is_empty-channels h.clients, any_target-channels h h.clients, one.channels, one.opened)
          refl

    pub HasOne-emits : (name : String) (payload : j.Value) → (emit j r name payload h).0 ≡ ok tt
    HasOne-emits name payload =
        emit-result j r name payload h (omega (arith, HasOne-length))
        ∙ rw
            (
              is_empty-channels h.clients,
              any_open-channels h.net h.clients,
              one.channels,
              one.opened,
            )
            refl
