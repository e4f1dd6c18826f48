-- ===== src/Host/Returned.antt =====
-- What `command` of crates/infinity-bridge-host/src/hub.rs returns.
use Prim.Native.String
use infinity_wasm_bridge.Prelude.{
  ℕ, ◌<◌, ◌^◌, String, ◌≡◌, refl, ◌≢◌, true, Option, none, some, List, [], ◌∷◌, ◌∙◌, ap, arith,
  if◌then◌else◌, string_eq, ◌==◌, Bool-cases, inl, inr, Option-cases, is_empty, All, unwrap_or,
  Result, ok, err, length,
}
use infinity_wasm_bridge.Prelude.HashMap
use infinity_wasm_bridge.Wire.Json.{Json}
use infinity_wasm_bridge.Wire.Error.{
  BridgeError, transport_error, no_clients_error, timeout_error, application_error,
}
use infinity_wasm_bridge.Wire.Msg.{AckPayload, cmd}
use infinity_wasm_bridge.Wire.RoundTrip.{from_json-to_json}
use infinity_wasm_bridge.Host.Runtime.{Runtime, Poll, waiting, value}
use infinity_wasm_bridge.Host.Hub.{Hub}
use infinity_wasm_bridge.Host.Command.{make_cmd, begin, deliver, outcome, finish, dispatch_ack}
use infinity_wasm_bridge.Host.Steps.{Op, begins, delivers, finishes, acknowledges, step, run}
use infinity_wasm_bridge.Host.Slots.{HasSlots, begin-HasSlots, dispatch_ack-HasSlots}
use infinity_wasm_bridge.Host.Pending.{step-HasSlots, run-HasSlots, deliver-HasSlots}
use infinity_wasm_bridge.Host.Settled.{run-IsSettled}
use infinity_wasm_bridge.Host.Answered.{
  IsOther, get-step, get-run, deliver-none, dispatch_ack-value, pending-forget,
}
use infinity_wasm_bridge.Host.Delivery.{any_target, deliver-result, pending-deliver}
use infinity_wasm_bridge.Host.Call.{awaited, command}

module _ (j : Json) (r : Runtime j) where
  open j use {Value, null}
  open r use {poll}

  -- A step that other tasks take: it may be an ack of the command, but it neither begins, delivers
  -- nor ends the command.
  abbrev pub IsForeign : String → Op j r → Type 0
  IsForeign id (begins k) = k ≢ id
  IsForeign id (delivers k text) = k ≢ id
  IsForeign id (finishes k timeout waited) = k ≢ id
  IsForeign id op = Unit

  -- The first ack of the id.
  abbrev pub first_ack : String → List (Op j r) → Option (AckPayload Value)
  first_ack id [] = none
  first_ack id (acknowledges a ∷ ops) = if a.id == id then some a else first_ack id ops
  first_ack id (op ∷ ops) = first_ack id ops

  abbrev pub shown : Option (AckPayload Value) → Poll (AckPayload Value)
  shown none = waiting
  shown (some a) = value a

  poll-run :
      (id : String) (s : r.Oneshot) (h : Hub j r) (ops : List (Op j r))
      → HasSlots j r h
      → HashMap.get id h.pending ≡ some s
      → All (IsForeign id) ops
      → poll s (run j r h ops).acks ≡ shown (first_ack id ops)
  unfolding run step
  poll-run id s h [] v found foreign = v.waits id s found
  poll-run id s h (acknowledges a ∷ ops) v found foreign = elim (Bool-cases (a.id == id)) [
    | inl mine ↦
        let same = (string_eq.equal_iff a.id id).0 mine in
        let here : HashMap.get a.id h.pending ≡ some s = rw same found in
        rw mine (
          run-IsSettled j r s a (dispatch_ack j r a h) ops (dispatch_ack-HasSlots j r a h v)
            (dispatch_ack-value j r s a h here (v.waits a.id s here)))
    | inr differs ↦ rw differs (
        poll-run id s (dispatch_ack j r a h) ops (dispatch_ack-HasSlots j r a h v)
          (get-step j r id h (acknowledges a) (ground (arith, string_eq.equal_iff a.id id)) ∙ found)
          foreign.1)
  ]
  poll-run id s h (begins k ∷ ops) v found foreign =
      poll-run id s _ ops (step-HasSlots j r h (begins k) v)
        (get-step j r id h (begins k) foreign.0 ∙ found) foreign.1
  poll-run id s h (delivers k text ∷ ops) v found foreign =
      poll-run id s _ ops (step-HasSlots j r h (delivers k text) v)
        (get-step j r id h (delivers k text) foreign.0 ∙ found) foreign.1
  poll-run id s h (finishes k timeout waited ∷ ops) v found foreign =
      poll-run id s _ ops (step-HasSlots j r h (finishes k timeout waited) v)
        (get-step j r id h (finishes k timeout waited) foreign.0 ∙ found) foreign.1
  poll-run id s h (op ∷ ops) v found foreign =
      poll-run id s (step j r h op) ops (step-HasSlots j r h op v) (get-step j r id h op tt ∙ found)
        foreign.1

  -- Why a command fails at once, if it does.
  abbrev pub immediate : Hub j r → Option BridgeError
  immediate h =
      if is_empty h.clients
      then some (no_clients_error "no gauges connected — cannot send command")
      else if any_target j r h h.clients
      then none
      else some (transport_error "no gauge connection accepted the command")

  -- What a command returns that failed at once with an error, or else got an ack or none.
  abbrev pub returned :
      ℕ → Option BridgeError → Option (AckPayload Value) → Result BridgeError Value
  returned timeout (some e) a = err e
  returned timeout none none =
      err (timeout_error (String.◌++◌ "no ack received within " (r.show_duration timeout)))
  returned timeout none (some a) =
      if a.is_ok
      then ok (unwrap_or a.response null)
      else err (application_error (unwrap_or a.error "unknown error"))

  outcome-awaited :
      (timeout : ℕ) (a : Option (AckPayload Value))
      → outcome j r timeout (awaited j r (shown a)) ≡ returned timeout none a
  unfolding outcome
  outcome-awaited timeout none = refl
  outcome-awaited timeout (some a) = refl

  module _ (id : String) (name : Option String) (payload : Value) (timeout : ℕ)
      (before meanwhile : List (Op j r)) (h : Hub j r) where
    -- The hub at the moment at which the command is delivered.
    abbrev pub asked : Hub j r
    asked = run j r (begin j r id h).1 before

    poll-sent :
        (message : j.Text)
        → HasSlots j r h
        → All (IsOther j r id) before
        → All (IsForeign id) meanwhile
        → (deliver j r id message asked).0 ≡ none
        → poll (begin j r id h).0 (run j r (deliver j r id message asked).1 meanwhile).acks
          ≡ shown (first_ack id meanwhile)
    unfolding begin
    poll-sent message v others foreign delivered =
        let (s, begun) = begin j r id h in
        let sent = (deliver j r id message asked).1 in
        let mine : HashMap.get id begun.pending ≡ some s =
          HashMap.get-insert id id s h.pending ∙ rw ((string_eq.equal_iff id id).1 refl) in
        let sound = run-HasSlots j r begun before (begin-HasSlots j r id h v) in
        poll-run id s sent meanwhile (deliver-HasSlots j r id message asked sound)
          (ap (HashMap.get id) (deliver-none j r id message asked delivered).pending
            ∙ get-run j r id begun before others
            ∙ mine)
          foreign

    -- The result of a command, whatever other tasks do before and after its delivery as long as they
    -- do not begin, deliver or end a command of the same id, and no ack of the id comes before the
    -- delivery: an error at once, if no client or no open target is there at the delivery; else the
    -- first ack of the id decides it, and without one it is a timeout. In every case no entry is
    -- left. The hub is one whose pending commands wait on channels of their own, with fewer than
    -- 2 ^ 64 clients at the delivery.
    pub command-returned :
        HasSlots j r h
        → All (IsOther j r id) before
        → All (IsForeign id) meanwhile
        → length asked.clients < 2 ^ 64
        → let (result, h') = command j r id name payload timeout before meanwhile h in
          (result ≡ returned timeout (immediate asked) (first_ack id meanwhile))
          × (HashMap.get id h'.pending ≡ none)
    unfolding command begin finish
    command-returned v others foreign few =
        let (s, begun) = begin j r id h in
        let (message, printed, _) = from_json-to_json j (cmd (make_cmd j r id name payload)) tt in
        let itself : (id == id) ≡ true = (string_eq.equal_iff id id).1 refl in
        let sent = (deliver j r id message asked).1 in
        let decided = deliver-result j r id message asked few in
        elim (Option-cases (immediate asked)) [
          | inr (e, fails) ↦
              let failed = decided ∙ fails in
              (
                rw (command, printed, failed, fails),
                rw (command, printed, failed)
                    (pending-deliver j r id message asked id ∙ rw (failed, itself)),
              )
          | inl waits ↦
              let delivered = decided ∙ waits in
              let shows = poll-sent message v others foreign delivered in
              (
                rw (command, printed, delivered, waits, shows)
                    (outcome-awaited timeout (first_ack id meanwhile)),
                rw (command, printed, delivered)
                    (pending-forget j r id id (run j r sent meanwhile) ∙ rw itself),
              )
        ]
