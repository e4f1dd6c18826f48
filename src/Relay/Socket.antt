-- ===== src/Relay/Socket.antt =====
-- The WebSocket of a `BridgeRelay` in ts/infinity-bridge-relay/src/relay.ts: how the relay makes it, loses
-- it and makes another, and the relay with its socket as a machine. The handlers of a socket stay on
-- it when the relay lets go of it, so events of every socket ever made arrive.
use infinity_wasm_bridge.Prelude.{
  ℕ, ◌+◌, String, Bool, true, false, Option, none, some, List, [], ◌∷◌, nat_eq, contains,
  if◌then◌else◌,
}
use infinity_wasm_bridge.Prelude.HashMap
use infinity_wasm_bridge.Wire.Json.{Json}
use infinity_wasm_bridge.Wire.Decode.{◌>>=◌}
use infinity_wasm_bridge.Relay.State.{Relay}
use infinity_wasm_bridge.Relay.Bridge.{
  Rejection, bind_comm_bus, on_host_message, on_wasm_message, request_timeout, call_failed,
}
use infinity_wasm_bridge.Relay.Life
use infinity_wasm_bridge.Relay.Life.{RelayConfig, new_relay, greet, retry_bind}
use infinity_wasm_bridge.Relay.RetryTimer.{RetryTimer, unset, schedule, clear, elapse}

-- `WebSocket.readyState`.
pub data ReadyState : Type 0 where
  connecting opened closing closed : ReadyState

abbrev pub is_active : Option ReadyState → Bool
is_active (some connecting) = true
is_active (some opened) = true
is_active s = false

abbrev pub is_opened : Option ReadyState → Bool
is_opened (some opened) = true
is_opened s = false

-- `close()` of a socket.
abbrev pub after_close : ReadyState → ReadyState
after_close closed = closed
after_close s = closing

-- `ws` is the socket that the relay holds, by its number; the browser keeps the state of every socket
-- that was made. `retry` and `bind` are the timers of `wsRetryTimerId` and `bindRetryTimerId`.
pub record Connection (j : Json) : Type 0 where
  pub relay : Relay j
  pub ws : Option ℕ
  pub retry : RetryTimer
  pub bind : RetryTimer
  pub made : ℕ
  pub states : List (ℕ × ReadyState)

module _ (j : Json) where
  open j use {Value, Text}

  unfoldable pub new_connection : RelayConfig Value → Connection j
  new_connection config = record {
    relay = new_relay j config;
    ws = none;
    retry = unset;
    bind = unset;
    made = 0;
    states = [];
  }

  -- The `readyState` of a held socket.
  abbrev pub state_of : List (ℕ × ReadyState) → Option ℕ → Option ReadyState
  state_of states ws = ws >>= (λ id. HashMap.get id states)

  abbrev pub current : Connection j → Option ReadyState
  current c = state_of c.states c.ws

  -- A handler runs. What it reads of the socket is the `readyState` of the one that the relay holds now.
  abbrev pub on_relay : (Relay j → Relay j) → Connection j → Connection j
  on_relay f c = record c { relay = f (record c.relay { is_open = is_opened (current c) }) }

  abbrev pub schedule_ws_reconnect : Connection j → Connection j
  schedule_ws_reconnect c = record c { retry = schedule c.retry }

  -- `throws`: the constructor of the socket throws.
  unfoldable pub connect_ws : Bool → Connection j → Connection j
  connect_ws throws c =
      if is_active (current c)
      then c
      else if throws
      then schedule_ws_reconnect (record c { ws = none })
      else record c {
        ws = some c.made;
        made = c.made + 1;
        states = HashMap.insert c.made connecting c.states;
      }

  abbrev pub states_closing : Option ℕ → List (ℕ × ReadyState) → List (ℕ × ReadyState)
  states_closing none states = states
  states_closing (some id) states = HashMap.modify id after_close states

  unfoldable pub cleanup_ws : Connection j → Connection j
  cleanup_ws c = record c {
    retry = clear c.retry;
    ws = none;
    states = states_closing c.ws c.states;
  }

  -- `onopen` of a socket.
  unfoldable pub on_ws_open : RelayConfig Value → ℕ → ℕ → Connection j → Connection j
  on_ws_open config now id c =
      on_relay (greet j config now) (record c { states = HashMap.insert id opened c.states })

  -- `onerror` and `onclose` of a socket.
  unfoldable pub on_ws_end : ℕ → Connection j → Connection j
  on_ws_end id c =
      schedule_ws_reconnect (record c { ws = none; states = HashMap.insert id closed c.states })

  -- A timer of the reconnection goes off, if it runs.
  unfoldable pub retry_ws : ℕ → Bool → Connection j → Connection j
  unfolding connect_ws
  retry_ws timer throws c =
      if contains c.retry.running timer
      then connect_ws throws (record c { retry = elapse timer c.retry })
      else c

  abbrev pub schedule_bind_retry : Connection j → Connection j
  schedule_bind_retry c = if c.relay.is_bound then c else record c { bind = schedule c.bind }

  -- A timer of the binding goes off, if it runs.
  unfoldable pub rebind : ℕ → Bool → Connection j → Connection j
  rebind timer binds c =
      if contains c.bind.running timer
      then schedule_bind_retry
          (on_relay (retry_bind j binds) (record c { bind = elapse timer c.bind }))
      else c

  -- The whole of `init` and of `destroy`.
  unfoldable pub init : Bool → Bool → Connection j → Connection j
  unfolding connect_ws
  init binds throws c = schedule_bind_retry (on_relay (Life.init j binds) (connect_ws throws c))

  unfoldable pub destroy : Connection j → Connection j
  unfolding cleanup_ws
  destroy c = cleanup_ws (on_relay (Life.destroy j) (record c { bind = clear c.bind }))

  -- What can happen to a relay with its socket. `continues` is the continuation of the view listener,
  -- which holds on to the listener and may come at any time, after the end of the relay too.
  pub data Op : Type 0 where
    inits : Bool → Bool → Op
    opens : RelayConfig Value → ℕ → ℕ → Op
    ends : ℕ → Op
    retries_ws : ℕ → Bool → Op
    rebinds : ℕ → Bool → Op
    continues : Bool → Op
    hears_host : Bool → ℕ → Text → Op
    hears_gauge : (Value → String) → Text → Op
    times_out : String → Op
    fails : String → Rejection → Op
    destroys : Op

  unfoldable pub step : Connection j → Op → Connection j
  step c (inits binds throws) = init binds throws c
  step c (opens config now id) = on_ws_open config now id c
  step c (ends id) = on_ws_end id c
  step c (retries_ws timer throws) = retry_ws timer throws c
  step c (rebinds timer binds) = rebind timer binds c
  step c (continues binds) = on_relay (bind_comm_bus j binds) c
  step c (hears_host binds now raw) = on_relay (on_host_message j binds now raw) c
  step c (hears_gauge shown raw) = on_relay (on_wasm_message j shown raw) c
  step c (times_out request_id) = on_relay (request_timeout j request_id) c
  step c (fails request_id why) = on_relay (call_failed j request_id why) c
  step c destroys = destroy c

  unfoldable pub run : Connection j → List Op → Connection j
  unfolding step
  run c [] = c
  run c (op ∷ ops) = run (step c op) ops
