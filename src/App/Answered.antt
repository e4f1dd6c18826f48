-- ===== src/App/Answered.antt =====
-- A command of examples/host-app/src/main.rs that the fake gauge answers.
use infinity_wasm_bridge.Prelude.{
  ℕ, String, ◌≡◌, Option, some, ◌++◌, List, [], ◌∷◌, arith, All, Result,
}
use infinity_wasm_bridge.Wire.Json.{Json}
use infinity_wasm_bridge.Wire.Error.{BridgeError}
use infinity_wasm_bridge.Host.Runtime.{Runtime}
use infinity_wasm_bridge.Host.Hub.{Hub}
use infinity_wasm_bridge.Host.Steps.{Op}
use infinity_wasm_bridge.Host.Slots.{HasSlots}
use infinity_wasm_bridge.Host.Reachable.{
  IsIncoming, HasOne, HasOne-length, HasOne-immediate, SameReach-HasOne,
}
use infinity_wasm_bridge.Host.After.{command-HasSlots, command-SameReach}
use infinity_wasm_bridge.Gauge.Session.{
  answers, heard_ops, ack_ops, gauge_result, command-gauge_result,
}
use infinity_wasm_bridge.App.Demo.{Turn, server_command}
use infinity_wasm_bridge.Wire.Msg.{WireMsg, ack}
use infinity_wasm_bridge.Wire.Decode.{from_json}

module _ (j : Json) (r : Runtime j) where
  ack_ops-IsIncoming :
      (m : Option (WireMsg j.Value)) (ops : List (Op j r))
      → All (IsIncoming j r) ops
      → All (IsIncoming j r) (ack_ops j r m ++ ops)
  ack_ops-IsIncoming (some (ack a)) ops heard = (tt, heard)
  ack_ops-IsIncoming m ops heard = heard

  module _ (client_id now : ℕ) where
    heard_ops-IsIncoming :
        (texts : List j.Text) → All (IsIncoming j r) (heard_ops j r client_id now texts)
    heard_ops-IsIncoming [] = tt
    heard_ops-IsIncoming (text ∷ texts) = (
      tt,
      ack_ops-IsIncoming (from_json j text) (heard_ops j r client_id now texts)
          (heard_ops-IsIncoming texts),
    )

    -- A command that the gauge of one client answers.
    abbrev pub answered : String → String → j.Value → Turn j r
    answered id name payload = record {
      id = id;
      before = [];
      meanwhile = answers j r client_id now id (some name) payload;
    }

  -- The pending commands wait on channels of their own, and one client is there, whose channel is open.
  pub record IsServed (tx : r.Sender) (h : Hub j r) : Type 0 where
    pub slots : HasSlots j r h
    pub one : HasOne j r tx h

  module _ (client_id now : ℕ) (id name : String) (payload : j.Value) (limit : ℕ) (tx : r.Sender)
      (h : Hub j r) (s : IsServed tx h) where
    abbrev pub result_of : Result BridgeError j.Value × Hub j r
    result_of = server_command j r name payload limit (answered client_id now id name payload) h

    pub answered-result : result_of.0 ≡ gauge_result j r limit (some name) payload
    answered-result =
        command-gauge_result j r client_id now id limit (some name) payload h s.slots
          (omega (arith, HasOne-length j r tx h s.one)) (HasOne-immediate j r tx h s.one)

    pub answered-IsServed : IsServed tx result_of.1
    answered-IsServed =
        let heard = answers j r client_id now id (some name) payload in
        record {
          slots = command-HasSlots j r id (some name) payload limit [] heard h s.slots;
          one =
              SameReach-HasOne j r tx h result_of.1
                (command-SameReach j r id (some name) payload limit [] heard h tt
                  (heard_ops-IsIncoming client_id now _))
                s.one;
        }
