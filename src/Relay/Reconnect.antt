-- ===== src/Relay/Reconnect.antt =====
-- The relay keeps up its connection to the host (ts/infinity-bridge-relay/src/relay.ts).
use infinity_wasm_bridge.Prelude.{
  ℕ, ◌+◌, ◌≡◌, refl, sym, ap, ◌∙◌, Bool, true, false, ◌||◌, Option, none, some, List, [], ◌∷◌, ◌≤◌,
  length, arith, nat_eq, is_some, contains, if◌then◌else◌, nat_beq_iff,
}
use infinity_wasm_bridge.Prelude.HashMap
use infinity_wasm_bridge.Wire.Json.{Json}
use mathlib.Core.Option
use mathlib.Core.Path.{subst}
use infinity_wasm_bridge.Relay.State.{Relay}
use infinity_wasm_bridge.Relay.Life
use infinity_wasm_bridge.Relay.Life.{RelayConfig, retry_bind}
use infinity_wasm_bridge.Relay.RetryTimer.{
  IsSingle, is_running, elapse, schedule, schedule-IsSingle, is_running-schedule, clear-IsSingle,
  elapse-IsSingle, is_running_of_contains, length_of_IsSingle,
}
use infinity_wasm_bridge.Relay.Socket.{
  ReadyState, connecting, Connection, Op, inits, opens, ends, retries_ws, rebinds, continues,
  hears_host, hears_gauge, times_out, fails, destroys, is_active, after_close, opened, state_of,
  current, new_connection, connect_ws, cleanup_ws, on_ws_open, on_ws_end, retry_ws, rebind, init,
  destroy, step, run, on_relay, schedule_bind_retry, states_closing,
}

or_true : (b : Bool) → (b || true) ≡ true
or_true b = ground arith

module _ (j : Json) where
  -- The relay holds a socket that is connecting or open, or a timer of its reconnection runs.
  abbrev pub is_trying : Connection j → Bool
  is_trying c = is_active (current j c) || is_running c.retry

  -- Since the relay was last destroyed it was started, or one of its sockets failed or closed.
  abbrev is_woken_by : Bool → Op j → Bool
  is_woken_by woken (inits binds throws) = true
  is_woken_by woken (ends id) = true
  is_woken_by woken destroys = false
  is_woken_by woken op = woken

  abbrev pub is_woken : Bool → List (Op j) → Bool
  is_woken woken [] = woken
  is_woken woken (op ∷ ops) = is_woken (is_woken_by woken op) ops

  -- The timer is the one whose number is kept, a held socket is active, and the relay tries as it should.
  record IsKept (woken : Bool) (c : Connection j) : Type 0 where
    single : IsSingle c.retry
    held : is_active (current j c) ≡ is_some c.ws
    trying : is_trying c ≡ woken

  state_of-insert :
      (id : ℕ) (states : List (ℕ × ReadyState)) (ws : Option ℕ)
      → is_active (state_of j states ws) ≡ is_some ws
      → is_active (state_of j (HashMap.insert id opened states) ws) ≡ is_some ws
  state_of-insert id states none v = refl
  state_of-insert id states (some k) v = ground (arith, HashMap.get-insert id k opened states, v)

  if-IsKept :
      (b woken : Bool) (c d : Connection j)
      → (b ≡ true → IsKept woken c)
      → (b ≡ false → IsKept woken d)
      → IsKept woken (if b then c else d)
  if-IsKept true woken c d v w = v refl
  if-IsKept false woken c d v w = w refl

  made-IsKept :
      (c : Connection j)
      → IsSingle c.retry
      → IsKept true (record c {
        ws = some c.made;
        made = c.made + 1;
        states = HashMap.insert c.made connecting c.states;
      })
  made-IsKept c single =
      let itself = (nat_beq_iff c.made c.made).1 refl in
      let found : HashMap.get c.made (HashMap.insert c.made connecting c.states) ≡ some connecting =
        rw (HashMap.get-insert, itself) refl in
      let active = ap is_active found in
      record { single = single; held = active; trying = ap (λ b. b || is_running c.retry) active }

  connect_ws-IsKept :
      (throws : Bool) (c : Connection j)
      → IsSingle c.retry
      → is_active (current j c) ≡ is_some c.ws
      → IsKept true (connect_ws j throws c)
  unfolding connect_ws
  connect_ws-IsKept throws c single held =
      if-IsKept (is_active (current j c)) true _ _
        (λ active. record {
          single = single;
          held = held;
          trying = ap (λ b. b || is_running c.retry) active;
        })
        (λ idle.
          if-IsKept throws true _ _
            (λ thrown. record {
              single = schedule-IsSingle c.retry single;
              held = refl;
              trying = is_running-schedule c.retry single;
            })
            (λ works. made-IsKept c single))

  -- The steps that leave the socket and its timer alone.
  relay-IsKept :
      (r : Relay j) (woken : Bool) (c : Connection j)
      → IsKept woken c
      → IsKept woken (record c { relay = r })
  relay-IsKept r woken c v = record { single = v.single; held = v.held; trying = v.trying }

  schedule_bind_retry-IsKept :
      (woken : Bool) (c : Connection j) → IsKept woken c → IsKept woken (schedule_bind_retry j c)
  schedule_bind_retry-IsKept woken c v =
      if-IsKept c.relay.is_bound woken c (record c { bind = schedule c.bind }) (λ bound. v)
        (λ unbound. record { single = v.single; held = v.held; trying = v.trying })

  rebind-IsKept :
      (timer : ℕ) (binds woken : Bool) (c : Connection j)
      → IsKept woken c
      → IsKept woken (rebind j timer binds c)
  unfolding rebind
  rebind-IsKept timer binds woken c v =
      if-IsKept (contains c.bind.running timer) woken _ c
        (λ runs.
          let c' : Connection j = record c { bind = elapse timer c.bind } in
          schedule_bind_retry-IsKept woken (on_relay j (retry_bind j binds) c')
            (record { single = v.single; held = v.held; trying = v.trying }))
        (λ over. v)

  on_ws_end-IsKept :
      (id : ℕ) (woken : Bool) (c : Connection j) → IsKept woken c → IsKept true (on_ws_end j id c)
  unfolding on_ws_end
  on_ws_end-IsKept id woken c v = record {
    single = schedule-IsSingle c.retry v.single;
    held = refl;
    trying = is_running-schedule c.retry v.single;
  }

  on_ws_open-IsKept :
      (config : RelayConfig j.Value) (now id : ℕ) (woken : Bool) (c : Connection j)
      → IsKept woken c
      → IsKept woken (on_ws_open j config now id c)
  unfolding on_ws_open
  on_ws_open-IsKept config now id woken c v =
      let held = state_of-insert id c.states c.ws v.held in
      record {
        single = v.single;
        held = held;
        trying = ap (λ b. b || is_running c.retry) (held ∙ sym v.held) ∙ v.trying;
      }

  retry_ws-IsKept :
      (timer : ℕ) (throws woken : Bool) (c : Connection j)
      → IsKept woken c
      → IsKept woken (retry_ws j timer throws c)
  unfolding retry_ws
  retry_ws-IsKept timer throws woken c v =
      if-IsKept (contains c.retry.running timer) woken _ c
        (λ runs.
          let single = elapse-IsSingle timer c.retry runs v.single in
          let runs' = is_running_of_contains timer c.retry runs in
          let awake : true ≡ woken =
            sym (ap (λ b. is_active (current j c) || b) runs' ∙ or_true _) ∙ v.trying in
          subst (λ w. IsKept w (connect_ws j throws (record c { retry = elapse timer c.retry })))
            awake
            (connect_ws-IsKept throws (record c { retry = elapse timer c.retry }) single v.held))
        (λ over. v)

  destroy-IsKept : (woken : Bool) (c : Connection j) → IsKept woken c → IsKept false (destroy j c)
  unfolding destroy cleanup_ws
  destroy-IsKept woken c v =
      let single = clear-IsSingle c.retry v.single in
      record { single = single; held = refl; trying = ground (arith, single) }

  step-IsKept :
      (woken : Bool) (c : Connection j) (op : Op j)
      → IsKept woken c
      → IsKept (is_woken_by woken op) (step j c op)
  unfolding step init
  step-IsKept woken c (inits binds throws) v =
      schedule_bind_retry-IsKept true (on_relay j (Life.init j binds) (connect_ws j throws c))
        (relay-IsKept _ true _ (connect_ws-IsKept throws c v.single v.held))
  step-IsKept woken c (opens config now id) v = on_ws_open-IsKept config now id woken c v
  step-IsKept woken c (ends id) v = on_ws_end-IsKept id woken c v
  step-IsKept woken c (retries_ws timer throws) v = retry_ws-IsKept timer throws woken c v
  step-IsKept woken c (rebinds timer binds) v = rebind-IsKept timer binds woken c v
  step-IsKept woken c (continues binds) v = relay-IsKept _ woken c v
  step-IsKept woken c (hears_host binds now raw) v = relay-IsKept _ woken c v
  step-IsKept woken c (hears_gauge shown raw) v = relay-IsKept _ woken c v
  step-IsKept woken c (times_out request_id) v = relay-IsKept _ woken c v
  step-IsKept woken c (fails request_id why) v = relay-IsKept _ woken c v
  step-IsKept woken c destroys v = destroy-IsKept woken c v

  run-IsKept :
      (woken : Bool) (c : Connection j) (ops : List (Op j))
      → IsKept woken c
      → IsKept (is_woken woken ops) (run j c ops)
  unfolding run
  run-IsKept woken c [] v = v
  run-IsKept woken c (op ∷ ops) v =
      run-IsKept (is_woken_by woken op) (step j c op) ops (step-IsKept woken c op v)

  inactive_after_close : (s : Option ReadyState) → is_active (Option.map after_close s) ≡ false
  inactive_after_close none = refl
  inactive_after_close (some s) = ground arith

  closing :
      (ws : Option ℕ) (states : List (ℕ × ReadyState))
      → is_active (state_of j (states_closing j ws states) ws) ≡ false
  closing none states = refl
  closing (some id) states =
      let itself = (nat_beq_iff id id).1 refl in
      ap is_active (HashMap.get-modify id id after_close states ∙ rw itself refl)
      ∙ inactive_after_close (HashMap.get id states)

  -- Whatever has happened to a new relay and to all the sockets that it ever made: it holds a socket that is
  -- connecting or open, or a timer of its reconnection runs, exactly if it was started, or a socket of
  -- it failed or closed, since it was last destroyed. At most one such timer runs, and the socket that
  -- the relay holds is connecting or open. If it is destroyed then, that socket is neither any more.
  pub run-is_trying :
      (config : RelayConfig j.Value) (ops : List (Op j))
      → let c = run j (new_connection j config) ops in
        (is_trying c ≡ is_woken false ops)
        × (length c.retry.running ≤ 1)
        × (is_active (current j c) ≡ is_some c.ws)
        × (is_active (state_of j (step j c destroys).states c.ws) ≡ false)
  unfolding new_connection step destroy cleanup_ws
  run-is_trying config ops =
      let c = run j (new_connection j config) ops in
      let v =
        run-IsKept false (new_connection j config) ops
          (record { single = refl; held = refl; trying = refl }) in
      (v.trying, length_of_IsSingle c.retry v.single, v.held, closing c.ws c.states)
