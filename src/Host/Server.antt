-- ===== src/Host/Server.antt =====
-- crates/infinity-bridge-host/src/server.rs: the configuration, and `handle_socket`, the reader and
-- the ping task of one connection. The start of the HTTP server is left out.
use Prim.Native.Nat.{ℕ, ◌%◌, ◌^◌}
use infinity_wasm_bridge.Prelude.{
  String, Bool, true, Option, none, some, List, [], ◌∷◌, ok, err, is_ok, unwrap_or, if◌then◌else◌,
  ◌==◌, nat_eq, string_eq, contains, ◌≡◌, refl, ◌⊎◌, inl, inr,
}
use infinity_wasm_bridge.Wire.Json.{Json}
use infinity_wasm_bridge.Wire.Msg.{
  WireMsg, hello, ping, pong, cmd, ack, event, ready_event, new_event,
}
use infinity_wasm_bridge.Wire.Encode.{to_json}
use infinity_wasm_bridge.Wire.Decode.{◌>>=◌, from_json}
use infinity_wasm_bridge.Host.Runtime.{Runtime}
use infinity_wasm_bridge.Host.Hub.{
  register_client, Hub, set_client_hello, unregister_client, touch_client, reap_dead_clients,
  set_client_ready, dispatch_event,
}
use infinity_wasm_bridge.Host.Send.{send_to}
use infinity_wasm_bridge.Host.Command.{dispatch_ack}

-- Durations are in seconds.
pub record ServerConfig : Type 0 where
  pub bind_addr : String
  pub ws_path : String
  pub event_capacity : ℕ
  pub ping_interval : ℕ
  pub ping_timeout : ℕ

abbrev pub new_config : String → String → ServerConfig
new_config bind_addr ws_path = record {
  bind_addr = bind_addr;
  ws_path = ws_path;
  event_capacity = 256;
  ping_interval = 5;
  ping_timeout = 15;
}

-- `Message` of axum: the frames that the reader tells apart.
pub data Frame (Text : Type 0) : Type 0 where
  text : Text → Frame Text
  close : Frame Text
  other : Frame Text

-- What `select!` yields to the reader: the signal of the ping task, or the next frame with the time
-- at which it is handled; no frame stands for the end of the stream and for a failure of it.
pub data Signal (Text : Type 0) : Type 0 where
  reaped : Signal Text
  received : ℕ → Option (Frame Text) → Signal Text

-- Whether a loop goes round again.
pub data Loop : Type 0 where
  goes_on gives_up : Loop

pub Loop-cases : (l : Loop) → (l ≡ goes_on) ⊎ (l ≡ gives_up)
Loop-cases goes_on = inl refl
Loop-cases gives_up = inr refl

module _ (j : Json) (r : Runtime j) (client_id : ℕ) where
  open j use {Value, Text, get, as_bool}

  -- `event.data.get("ready").and_then(Value::as_bool).unwrap_or(true)`.
  abbrev pub ready_of : Value → Bool
  ready_of payload = unwrap_or (get payload "ready" >>= as_bool) true

  -- The match on a parsed message.
  unfoldable pub handle_message : WireMsg Value → Hub j r → Hub j r
  handle_message (hello greeting) h = set_client_hello j r client_id greeting h
  handle_message (ack a) h = dispatch_ack j r a h
  handle_message (event e) h =
      if e.name == ready_event
      then set_client_ready j r client_id (ready_of e.payload) h
      else dispatch_event j r e h
  handle_message (pong ts) h = h
  handle_message (cmd c) h = dispatch_event j r (new_event (unwrap_or c.name "cmd") c.payload) h
  handle_message (ping ts) h = elim (to_json j (pong ts)) [
    | ok answer ↦ (send_to j r client_id answer h).1
    | err e ↦ h
  ]

  unfoldable pub handle_text : ℕ → Text → Hub j r → Hub j r
  unfolding handle_message
  handle_text now raw h =
      let touched = touch_client j r client_id now h in
      elim (from_json j raw) [ none ↦ touched | some m ↦ handle_message m touched ]

  -- One round of the reader.
  unfoldable pub read_round : Signal Text → Hub j r → Loop × Hub j r
  unfolding handle_text
  read_round reaped h = (gives_up, h)
  read_round (received now none) h = (gives_up, h)
  read_round (received now (some (text raw))) h = (goes_on, handle_text now raw h)
  read_round (received now (some close)) h = (gives_up, h)
  read_round (received now (some other)) h = (goes_on, h)

  -- The reader over the signals that arrive, and the end of `handle_socket` once it gives up.
  unfoldable pub read_loop : List (Signal Text) → Hub j r → Loop × Hub j r
  read_loop [] h = (goes_on, h)
  read_loop (s ∷ signals) h =
      let (again, h') = read_round s h in
      elim again [
        | goes_on ↦ read_loop signals h'
        | gives_up ↦ (gives_up, unregister_client j r client_id h')
      ]

  -- One tick of the ping task; it gives up when it signals the reader. `millis` is the time since the
  -- epoch, cast to a `u64`.
  unfoldable pub ping_tick : ℕ → ℕ → ℕ → Hub j r → Loop × Hub j r
  ping_tick ping_timeout now millis h =
      let (dead, left) = reap_dead_clients j r ping_timeout now h in
      if contains dead client_id
      then (gives_up, left)
      else elim (to_json j (ping (some (millis % 2 ^ 64)))) [
        | err e ↦ (goes_on, left)
        | ok probe ↦
            let (sent, h') = send_to j r client_id probe left in
            (if is_ok sent then goes_on else gives_up, h')
      ]

-- A connection from its registration on, with nothing else going on in the hub: `tx` is the sending
-- end of its channel.
unfoldable pub handle_socket :
    (j : Json) (r : Runtime j) → r.Sender → ℕ → List (Signal j.Text) → Hub j r → Loop × Hub j r
handle_socket j r tx now signals h =
    let (client_id, h') = register_client j r tx now h in read_loop j r client_id signals h'
