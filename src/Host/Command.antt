-- ===== src/Host/Command.antt =====
-- `command` and `dispatch_ack` of crates/infinity-bridge-host/src/hub.rs. `command` lets go of its
-- locks between its parts, so each part is a step of its own: `begin` enters the id in the map of
-- pending commands, `deliver` sends the command under the lock of the clients, and `finish` runs
-- once the wait for the ack is over.
use Prim.Native.String
use infinity_wasm_bridge.Prelude.{
  ℕ, ◌+◌, ◌%◌, ◌^◌, String, Bool, false, not, ◌&&◌, Option, none, some, [], ◌∷◌, Result, ok, err,
  is_empty, unwrap_or, if◌then◌else◌, ◌==◌, nat_eq, string_eq,
}
use infinity_wasm_bridge.Prelude.HashMap
use infinity_wasm_bridge.Wire.Json.{Json}
use infinity_wasm_bridge.Wire.Error.{
  BridgeError, transport_error, timeout_error, application_error, no_clients_error,
}
use infinity_wasm_bridge.Wire.Msg.{CmdPayload, AckPayload, new_cmd, named_cmd}
use infinity_wasm_bridge.Host.Runtime.{Runtime}
use infinity_wasm_bridge.Host.Hub.{Client, Hub, Clients, any_ready}

-- How the wait for the ack ended: `Ok(Ok(ack))`, `Ok(Err(_))` or `Err(_)`.
pub data Waited (V : Type 0) : Type 0 where
  acked : AckPayload V → Waited V
  closed : Waited V
  elapsed : Waited V

module _ (j : Json) (r : Runtime j) where
  open j use {Value, Text, null}
  open r use {Net, Acks, Oneshot, send, channel, resolve, drop_sender, show_duration}

  -- The command that is sent: named if a name is given.
  abbrev pub make_cmd : String → Option String → Value → CmdPayload Value
  make_cmd id none payload = new_cmd id payload
  make_cmd id (some name) payload = named_cmd id name payload

  -- `pending.remove(&id)`, which drops the sender that it takes out.
  unfoldable pub forget : String → Hub j r → Hub j r
  forget id h = elim (HashMap.get id h.pending) [
    | none ↦ h
    | some s ↦ record h { pending = HashMap.remove id h.pending; acks = drop_sender s h.acks }
  ]

  -- The receiver, and `pending.insert`, which drops a sender that was there under the same id.
  unfoldable pub begin : String → Hub j r → Oneshot × Hub j r
  begin id h =
      let (s, a) = channel h.acks in
      let a' : Acks = elim (HashMap.get id h.pending) [ none ↦ a | some old ↦ drop_sender old a ] in
      (s, record h { pending = HashMap.insert id s h.pending; acks = a' })

  -- Whether the loop of `command` passes a client over.
  abbrev pub is_skipped : Bool → Client j r → Bool
  is_skipped known c = known && not c.ready

  -- The loop of `command`: `delivered` is a `usize` of 64 bits.
  unfoldable pub deliver_all : Bool → Text → Clients j r → ℕ → Net → ℕ × Net
  deliver_all known text [] delivered n = (delivered, n)
  deliver_all known text ((id, c) ∷ cs) delivered n =
      let (accepted, n') = if is_skipped known c then (false, n) else send c.tx text n in
      deliver_all known text cs (if accepted then (delivered + 1) % 2 ^ 64 else delivered) n'

  -- The block under the lock of the clients. `none` means that the command now waits.
  unfoldable pub deliver : String → Text → Hub j r → Option BridgeError × Hub j r
  deliver id text h =
      if is_empty h.clients
      then (some (no_clients_error "no gauges connected — cannot send command"), forget id h)
      else let (delivered, n) = deliver_all (any_ready j r h.clients) text h.clients 0 h.net in
        let h' : Hub j r = record h { net = n } in
        if delivered == 0
        then (some (transport_error "no gauge connection accepted the command"), forget id h')
        else (none, h')

  -- The match on `ack_result`.
  unfoldable pub outcome : ℕ → Waited Value → Result BridgeError Value
  outcome timeout (acked a) =
      if a.is_ok
      then ok (unwrap_or a.response null)
      else err (application_error (unwrap_or a.error "unknown error"))
  outcome timeout closed = err (transport_error "all gauge connections dropped before ack")
  outcome timeout elapsed =
      err (timeout_error (String.◌++◌ "no ack received within " (show_duration timeout)))

  unfoldable pub finish : String → ℕ → Waited Value → Hub j r → Result BridgeError Value × Hub j r
  finish id timeout waited h = (outcome timeout waited, forget id h)

  unfoldable pub dispatch_ack : AckPayload Value → Hub j r → Hub j r
  dispatch_ack a h = elim (HashMap.get a.id h.pending) [
    | none ↦ h
    | some s ↦ record h { pending = HashMap.remove a.id h.pending; acks = resolve s a h.acks }
  ]
