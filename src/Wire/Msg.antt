-- ===== src/Wire/Msg.antt =====
-- crates/infinity-bridge-wire/src/msg.rs: the messages, over any type of JSON values.
use infinity_wasm_bridge.Prelude.{ℕ, String, Bool, true, false, Option, none, some}

-- `infinity_bridge_wire::READY_EVENT` and `PROTOCOL_VERSION`.
abbrev pub ready_event : String
ready_event = "__bridge_ready"

pub record HelloPayload (V : Type 0) : Type 0 where
  pub client : Option String
  pub aircraft : Option String
  pub tail : Option String
  pub session : Option String
  pub v : Option ℕ
  pub meta : Option V

pub record CmdPayload (V : Type 0) : Type 0 where
  pub id : String
  pub name : Option String
  pub payload : V

pub record AckPayload (V : Type 0) : Type 0 where
  pub id : String
  pub is_ok : Bool
  pub error : Option String
  pub response : Option V
  pub duplicate : Option Bool

pub record EventPayload (V : Type 0) : Type 0 where
  pub name : String
  pub payload : V

pub data WireMsg (V : Type 0) : Type 0 where
  hello : HelloPayload V → WireMsg V
  ping : Option ℕ → WireMsg V
  pong : Option ℕ → WireMsg V
  cmd : CmdPayload V → WireMsg V
  ack : AckPayload V → WireMsg V
  event : EventPayload V → WireMsg V

module _ {V : Type 0} where
  -- `AckPayload::ok`, `err` and `duplicate`.
  abbrev pub ok_ack : String → V → AckPayload V
  ok_ack id response = record {
    id = id;
    is_ok = true;
    error = none;
    response = some response;
    duplicate = none;
  }

  abbrev pub err_ack : String → String → AckPayload V
  err_ack id error = record {
    id = id;
    is_ok = false;
    error = some error;
    response = none;
    duplicate = none;
  }

  abbrev pub duplicate_ack : String → AckPayload V
  duplicate_ack id = record {
    id = id;
    is_ok = true;
    error = none;
    response = none;
    duplicate = some true;
  }

  -- `CmdPayload::new` and `named`.
  abbrev pub new_cmd : String → V → CmdPayload V
  new_cmd id payload = record { id = id; name = none; payload = payload }

  abbrev pub named_cmd : String → String → V → CmdPayload V
  named_cmd id name payload = record { id = id; name = some name; payload = payload }

  -- `EventPayload::new`.
  abbrev pub new_event : String → V → EventPayload V
  new_event name payload = record { name = name; payload = payload }

  -- The text of the `t` field: the `rename` of each variant.
  unfoldable pub tag : WireMsg V → String
  tag (hello h) = "hello"
  tag (ping ts) = "ping"
  tag (pong ts) = "pong"
  tag (cmd c) = "cmd"
  tag (ack a) = "ack"
  tag (event e) = "event"
