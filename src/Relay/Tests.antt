-- ===== src/Relay/Tests.antt =====
-- The relay between the host and a gauge at concrete inputs.
use infinity_wasm_bridge.Prelude.{
  ℕ, ◌+◌, ◌<◌, ◌≤◌, ◌^◌, ◌≡◌, refl, true, false, none, some, List, [], ◌∷◌, ◌++◌, string_eq, ok,
  err, arith, length, nat_eq, contains,
}
use infinity_wasm_bridge.Prelude.HashMap
use infinity_wasm_bridge.Prelude.Decimal.{show_u64}
use infinity_wasm_bridge.Wire.Sample
use infinity_wasm_bridge.Wire.Sample.{Tree, Printed, nil, num, trees}
use infinity_wasm_bridge.Wire.Msg.{CmdPayload, cmd}
use infinity_wasm_bridge.Wire.Encode.{serialize, to_json}
use infinity_wasm_bridge.Wasm.Handler.{BridgeHandler, closure_handler}
use infinity_wasm_bridge.Wasm.Bus.{CommBus}
use infinity_wasm_bridge.Host.Hub.{Hub, new, register_client, is_ready}
use infinity_wasm_bridge.Host.Command.{make_cmd}
use infinity_wasm_bridge.Host.Steps.{registers, step, run}
use infinity_wasm_bridge.Host.Pending.{new-HasSlots}
use infinity_wasm_bridge.Host.Returned.{immediate}
use infinity_wasm_bridge.Host.Sample.{pipes, no_traffic, no_slots}
use infinity_wasm_bridge.Relay.Dedup.{new_ring, has, mark, without, trim, clear}
use infinity_wasm_bridge.Relay.State.{Relay}
use infinity_wasm_bridge.Relay.Ring.{mark_all, mark_all-remembered}
use infinity_wasm_bridge.Relay.Bridge.{on_host_message, on_response, request_timeout}
use infinity_wasm_bridge.Relay.Life
use infinity_wasm_bridge.Relay.Life.{RelayConfig, Op, inits, opens, hears_host, new_relay}
use infinity_wasm_bridge.Relay.Forwarded.{ack_of}
use infinity_wasm_bridge.Relay.Expiry.{expiry_text, on_response-request_timeout}
use infinity_wasm_bridge.Wire.Decode.{from_json}
use infinity_wasm_bridge.Relay.Through.{Returns, command-CameThrough}

-- A bus that counts its calls, and a gauge that counts its commands.
abbrev counter : CommBus Printed
counter = record {
  World = ℕ;
  Subscription = Unit {0};
  subscribe = λ name w. (ok tt, w);
  call = λ name t w. (ok tt, w + 1);
}

abbrev gauge : BridgeHandler Tree ℕ
gauge = closure_handler (λ name payload n. (ok (num n), n + 1))

abbrev relay : Relay trees
relay = record {
  has_bus = true;
  is_bound = true;
  is_open = true;
  pending = [];
  timers = [];
  request_seq = 0;
  dedup = new_ring 128;
  to_host = [];
  to_gauge = [];
}

abbrev hub : Hub trees pipes
hub = run trees pipes (new trees pipes 16 no_traffic no_slots) (registers 3 100 ∷ [])

few : length hub.clients < 2 ^ 64
unfolding run step register_client new HashMap.insert
few = omega arith

taken : immediate trees pipes hub ≡ none
unfolding run step register_client new HashMap.insert is_ready
taken = refl

abbrev bump : CmdPayload Tree
bump = make_cmd trees pipes "abc-123" (some "bump") nil

printed : to_json trees (cmd bump) ≡ ok (Sample.text (serialize trees (cmd bump)))
unfolding to_json
printed = refl

command-CameThrough_example :
    Returns trees pipes counter gauge "response"
      (λ v. "[object Object]")
      true
      7
      (Sample.text (serialize trees (cmd bump)))
      relay
      4
      0
      refl
      refl
      refl
      "abc-123"
      (some "bump")
      nil
      5
      1
      120
      hub
      bump
unfolding contains
command-CameThrough_example =
    command-CameThrough trees pipes counter gauge "response" (λ v. "[object Object]") true 7
      (Sample.text (serialize trees (cmd bump))) relay 4 0 refl refl refl "abc-123" (some "bump")
      nil 5 1 120 hub (new-HasSlots trees pipes 16 no_traffic no_slots (registers 3 100 ∷ [])) few
      taken printed refl

-- A relay that was started and got a command.
abbrev config : RelayConfig Tree
config = record {
  client = none;
  aircraft = none;
  tail = none;
  session = none;
  meta = none;
  dedup_capacity = some 2;
  protocol_version = none;
}

abbrev history : List (Op trees)
history =
    inits true ∷ opens config 7 ∷ hears_host true 7 (Sample.text (serialize trees (cmd bump))) ∷ []

asked : HashMap.get "7-1" (Life.run trees (new_relay trees config) history).pending ≡ some "abc-123"
unfolding Life.run HashMap.get on_host_message serialize contains Life.on_open Life.init new_relay
    HashMap.insert show_u64
asked = refl

opened : (Life.run trees (new_relay trees config) history).is_open ≡ true
unfolding Life.run on_host_message serialize contains Life.on_open Life.init new_relay
opened = refl

on_response-request_timeout_example :
    let r = Life.run trees (new_relay trees config) history in
    let r' = request_timeout trees "7-1" r in
    (reply : Printed) × (from_json trees reply
      ≡ some (ack_of trees "abc-123" (err (expiry_text r.is_bound))))
    × (r'.to_host ≡ r.to_host ++ reply ∷ [])
    × (HashMap.get "7-1" r'.pending ≡ none)
    × (on_response trees (λ v. "[object Object]") "7-1" nil r' ≡ r')
on_response-request_timeout_example =
    on_response-request_timeout trees config history "7-1" "abc-123" (λ v. "[object Object]") nil
      asked opened

-- The third id pushes the first one out.
ring_forgets : has (mark "c" (mark "b" (mark "a" (new_ring 2)))) "a" ≡ false
unfolding mark contains trim without
ring_forgets = refl

mark_all-remembered_example :
    let ring = mark_all ("a" ∷ "b" ∷ "a" ∷ "c" ∷ []) (new_ring 2) in
    (ring.set ≡ ring.order)
    × (length ring.order ≤ 2)
    × (mark "a" ring ≡ record ring { set = "c" ∷ "a" ∷ []; order = "c" ∷ "a" ∷ [] })
    × (clear ring ≡ new_ring 2)
unfolding mark contains trim without
mark_all-remembered_example = mark_all-remembered 2 ("a" ∷ "b" ∷ "a" ∷ "c" ∷ []) "a"
