-- ===== src/Relay/Life.antt =====
-- The life of a `BridgeRelay` in ts/infinity-bridge-relay/src/relay.ts: its constructor, `init` with the
-- retry of a bind, its socket opening and closing, and `destroy`; then the relay as a machine. How
-- the socket is made and made again, and when a bind is tried again, is in Relay.Socket. The fields
-- of the configuration that name events and set intervals are left out.
use infinity_wasm_bridge.Prelude.{
  ℕ, String, Bool, true, false, Option, List, [], ◌∷◌, ◌++◌, unwrap_or, string_eq, if◌then◌else◌,
}
use infinity_wasm_bridge.Prelude.Decimal.{show_u64}
use infinity_wasm_bridge.Prelude.HashMap
use mathlib.Core.Option
use infinity_wasm_bridge.Wire.Json.{Json}
use infinity_wasm_bridge.Wire.Encode.{unless_none}
use infinity_wasm_bridge.Relay.Dedup.{new_ring}
use infinity_wasm_bridge.Relay.State.{Relay}
use infinity_wasm_bridge.Relay.Bridge.{
  Rejection, send_value, send_ready, bind_comm_bus, rejected_value, on_host_message,
  on_wasm_message, request_timeout, call_failed,
}

-- `BridgeRelayConfig`.
pub record RelayConfig (V : Type 0) : Type 0 where
  pub client : Option String
  pub aircraft : Option String
  pub tail : Option String
  pub session : Option String
  pub meta : Option V
  pub dedup_capacity : Option ℕ
  pub protocol_version : Option ℕ

module _ (j : Json) where
  open j use {Value, Text, string, u64, object}

  unfoldable pub new_relay : RelayConfig Value → Relay j
  new_relay config = record {
    has_bus = false;
    is_bound = false;
    is_open = false;
    pending = [];
    timers = [];
    request_seq = 0;
    dedup = new_ring (unwrap_or config.dedup_capacity 128);
    to_host = [];
    to_gauge = [];
  }

  -- What `init` does of the CommBus.
  unfoldable pub init : Bool → Relay j → Relay j
  init binds r = bind_comm_bus j binds (record r { has_bus = true })

  unfoldable pub retry_bind : Bool → Relay j → Relay j
  retry_bind binds r = if r.has_bus then bind_comm_bus j binds r else r

  abbrev pub hello_value : RelayConfig Value → ℕ → Value
  hello_value config now = object (
      ("t", string "hello")
      ∷ ("client", string (unwrap_or config.client "msfs-gauge"))
      ∷ (unless_none j "aircraft" (Option.map string config.aircraft)
          ++ (unless_none j "tail" (Option.map string config.tail)
              ++ (("session", string (unwrap_or config.session (show_u64 now)))
                  ∷ ("v", u64 (unwrap_or config.protocol_version 1))
                  ∷ unless_none j "meta" config.meta))))

  -- What `onopen` sends.
  abbrev pub greet : RelayConfig Value → ℕ → Relay j → Relay j
  greet config now r = send_ready j (send_value j (hello_value config now) r)

  unfoldable pub on_open : RelayConfig Value → ℕ → Relay j → Relay j
  on_open config now r = greet config now (record r { is_open = true })

  -- `onclose` and `onerror`, both of which let go of the socket.
  unfoldable pub on_close : Relay j → Relay j
  on_close r = record r { is_open = false }

  -- The loop of `destroy`.
  unfoldable pub reject_all : List (String × String) → Relay j → Relay j
  reject_all [] r = r
  reject_all ((request_id, cmd_id) ∷ requests) r = reject_all requests (
      send_value j (rejected_value j cmd_id "[msfs-bridge] Relay destroyed")
        (record r { timers = HashMap.remove request_id r.timers }))

  unfoldable pub destroy : Relay j → Relay j
  unfolding reject_all
  destroy r = record (reject_all r.pending r) {
    pending = [];
    has_bus = false;
    is_bound = false;
    is_open = false;
  }

  -- What can happen to a relay. `continues` is the continuation of the view listener, which holds on to the
  -- listener and may come at any time, after the end of the relay too.
  pub data Op : Type 0 where
    inits : Bool → Op
    retries : Bool → Op
    continues : Bool → Op
    opens : RelayConfig Value → ℕ → Op
    closes : Op
    hears_host : Bool → ℕ → Text → Op
    hears_gauge : (Value → String) → Text → Op
    times_out : String → Op
    fails : String → Rejection → Op
    destroys : Op

  unfoldable pub step : Relay j → Op → Relay j
  step r (inits binds) = init binds r
  step r (retries binds) = retry_bind binds r
  step r (continues binds) = bind_comm_bus j binds r
  step r (opens config now) = on_open config now r
  step r closes = on_close r
  step r (hears_host binds now raw) = on_host_message j binds now raw r
  step r (hears_gauge shown raw) = on_wasm_message j shown raw r
  step r (times_out request_id) = request_timeout j request_id r
  step r (fails request_id why) = call_failed j request_id why r
  step r destroys = destroy r

  unfoldable pub run : Relay j → List Op → Relay j
  unfolding step
  run r [] = r
  run r (op ∷ ops) = run (step r op) ops
