-- ===== src/Relay/Timers.antt =====
-- The timers of the relay's requests, and what becomes of a command that the gauge never answers.
use infinity_wasm_bridge.Prelude.{
  ℕ, String, ◌≡◌, refl, Bool, true, false, Option-cases, Result-cases, inl, inr, ◌+◌, Option, none,
  some, List, [], ◌∷◌, ◌∙◌, ap, arith, string_eq, ◌==◌, if◌then◌else◌,
}
use infinity_wasm_bridge.Prelude.HashMap
use infinity_wasm_bridge.Wire.Json.{Json}
use infinity_wasm_bridge.Wire.Decode.{◌>>=◌}
use infinity_wasm_bridge.Relay.Dedup.{has, mark}
use infinity_wasm_bridge.Relay.State.{Relay}
use infinity_wasm_bridge.Relay.Bridge.{
  rejection_text, duplicate_value, rejected_value, settle, request_id_of, ws_send, send_value,
  send_ready, bind_comm_bus, fail_request, call_gauge, forward_command, on_host_command,
  on_host_event, on_host_value, on_host_message, on_response, forward_text, on_wasm_message,
  request_timeout,
}
use infinity_wasm_bridge.Relay.Life.{
  hello_value, init, retry_bind, on_open, on_close, reject_all, destroy, Op, inits, retries,
  continues, opens, closes, hears_host, hears_gauge, times_out, fails, destroys, step, run,
}

module _ (j : Json) where
  open j use {Value, Text}

  -- A timer runs for each pending request, and for no other.
  abbrev IsTimed : Relay j → Type 0
  IsTimed r = r.timers ≡ r.pending

  send_value-IsTimed : (v : Value) (r : Relay j) → IsTimed r → IsTimed (send_value j v r)
  unfolding send_value ws_send
  send_value-IsTimed v r t = ground (arith, t)

  send_ready-IsTimed : (r : Relay j) → IsTimed r → IsTimed (send_ready j r)
  unfolding send_ready
  send_ready-IsTimed r t = send_value-IsTimed _ r t

  bind_comm_bus-IsTimed :
      (binds : Bool) (r : Relay j) → IsTimed r → IsTimed (bind_comm_bus j binds r)
  unfolding bind_comm_bus
  bind_comm_bus-IsTimed binds r t =
      ground (arith, t, send_ready-IsTimed (record r { is_bound = true }) t)

  call_gauge-IsTimed :
      (k : String) (v : Value) (r : Relay j) → IsTimed r → IsTimed (call_gauge j k v r)
  unfolding call_gauge
  call_gauge-IsTimed k v r t = ground (arith, t)

  if-IsTimed : (b : Bool) (x y : Relay j) → IsTimed x → IsTimed y → IsTimed (if b then x else y)
  if-IsTimed true x y t u = t
  if-IsTimed false x y t u = u

  -- A request is settled and something is sent for it.
  settled-IsTimed :
      (k : String) (v : Value) (r : Relay j) → IsTimed r → IsTimed (send_value j v (settle j k r))
  settled-IsTimed k v r t = send_value-IsTimed v (settle j k r) (ap (HashMap.remove k) t)

  fail_request-IsTimed : (k e : String) (r : Relay j) → IsTimed r → IsTimed (fail_request j k e r)
  unfolding fail_request
  fail_request-IsTimed k e r t = elim (Option-cases (HashMap.get k r.pending)) [
    | inl gone ↦ rw (gone, fail_request) t
    | inr (id, found) ↦ rw (found, fail_request) (settled-IsTimed k _ r t)
  ]

  request_timeout-IsTimed : (k : String) (r : Relay j) → IsTimed r → IsTimed (request_timeout j k r)
  unfolding request_timeout
  request_timeout-IsTimed k r t = elim (Option-cases (HashMap.get k r.timers)) [
    | inl gone ↦ rw (gone, request_timeout) t
    | inr (id, found) ↦ rw (found, request_timeout) (settled-IsTimed k _ r t)
  ]

  on_response-IsTimed :
      (shown : Value → String) (k : String) (v : Value) (r : Relay j)
      → IsTimed r
      → IsTimed (on_response j shown k v r)
  unfolding on_response
  on_response-IsTimed shown k v r t = elim (Option-cases (HashMap.get k r.pending)) [
    | inl gone ↦ rw (gone, on_response) t
    | inr (id, found) ↦ rw (found, on_response) (settled-IsTimed k _ r t)
  ]

  forward_text-IsTimed :
      (tag : Option String) (raw : Text) (r : Relay j)
      → IsTimed r
      → IsTimed (forward_text j tag raw r)
  unfolding forward_text ws_send
  forward_text-IsTimed none raw r t = t
  forward_text-IsTimed (some x) raw r t = ground (arith, t)

  on_wasm_message-IsTimed :
      (shown : Value → String) (raw : Text) (r : Relay j)
      → IsTimed r
      → IsTimed (on_wasm_message j shown raw r)
  unfolding on_wasm_message
  on_wasm_message-IsTimed shown raw r t = elim (Result-cases (j.from_str raw)) [
    | inr (e, broken) ↦ rw (broken, on_wasm_message) t
    | inl (v, parsed) ↦ elim (Option-cases (j.get v "requestId" >>= j.as_str)) [
      | inl event ↦
          rw (parsed, on_wasm_message, event)
            (forward_text-IsTimed (j.get v "t" >>= j.as_str) raw r t)
      | inr (k, response) ↦
          rw (parsed, on_wasm_message, response) (on_response-IsTimed shown k v r t)
    ]
  ]

  forward_command-IsTimed :
      (binds : Bool) (now : ℕ) (id : String) (v : Value) (r : Relay j)
      → IsTimed r
      → IsTimed (forward_command j binds now id v r)
  unfolding forward_command
  forward_command-IsTimed binds now id v r t =
      let k = request_id_of now (r.request_seq + 1) in
      let b : Relay j = record r {
        dedup = mark id r.dedup;
        request_seq = r.request_seq + 1;
        timers = HashMap.insert k id r.timers;
        pending = HashMap.insert k id r.pending;
      } in
      let timed : IsTimed b = ap (HashMap.insert k id) t in
      if-IsTimed r.has_bus _ _
        (call_gauge-IsTimed k v (bind_comm_bus j binds b) (bind_comm_bus-IsTimed binds b timed))
        (fail_request-IsTimed k _ b timed)

  on_host_command-IsTimed :
      (binds : Bool) (now : ℕ) (v : Value) (r : Relay j)
      → IsTimed r
      → IsTimed (on_host_command j binds now v r)
  unfolding on_host_command
  on_host_command-IsTimed binds now v r t = elim (Option-cases (j.get v "id" >>= j.as_str)) [
    | inl lacking ↦ rw (lacking, on_host_command) t
    | inr (id, found) ↦
        rw (found, on_host_command)
          (if-IsTimed (has r.dedup id) _ _ (send_value-IsTimed (duplicate_value j id) r t)
            (forward_command-IsTimed binds now id v r t))
  ]

  on_host_event-IsTimed :
      (now : ℕ) (v : Value) (r : Relay j) → IsTimed r → IsTimed (on_host_event j now v r)
  unfolding on_host_event
  on_host_event-IsTimed now v r t =
      if-IsTimed r.has_bus _ _
        (call_gauge-IsTimed _ v (record r { request_seq = r.request_seq + 1 }) t) t

  on_host_value-IsTimed :
      (binds : Bool) (now : ℕ) (tag : Option String) (v : Value) (r : Relay j)
      → IsTimed r
      → IsTimed (on_host_value j binds now tag v r)
  unfolding on_host_value
  on_host_value-IsTimed binds now none v r t = t
  on_host_value-IsTimed binds now (some x) v r t =
      if-IsTimed (x == "ping") _ _ (send_value-IsTimed _ r t) (
        if-IsTimed (x == "cmd") _ _ (on_host_command-IsTimed binds now v r t)
          (if-IsTimed (x == "event") _ _ (on_host_event-IsTimed now v r t) t))

  on_host_message-IsTimed :
      (binds : Bool) (now : ℕ) (raw : Text) (r : Relay j)
      → IsTimed r
      → IsTimed (on_host_message j binds now raw r)
  unfolding on_host_message
  on_host_message-IsTimed binds now raw r t = elim (Result-cases (j.from_str raw)) [
    | inr (e, broken) ↦ rw (broken, on_host_message) t
    | inl (v, parsed) ↦
        rw (parsed, on_host_message)
          (on_host_value-IsTimed binds now (j.get v "t" >>= j.as_str) v r t)
  ]

  -- The keys of one map are among those of the other.
  abbrev AreAmong : List (String × String) → List (String × String) → Type 0
  AreAmong ts ps = (k : String) → HashMap.get k ps ≡ none → HashMap.get k ts ≡ none

  empty_of_AreAmong : (ts : List (String × String)) → AreAmong ts [] → ts ≡ []
  unfolding HashMap.get
  empty_of_AreAmong [] a = refl
  empty_of_AreAmong ((k, v) ∷ ts) a = ground (arith, a k refl, string_eq.equal_iff k k)

  send_value-timers : (v : Value) (r : Relay j) → (send_value j v r).timers ≡ r.timers
  unfolding send_value ws_send
  send_value-timers v r = ground arith

  reject_all-timers :
      (ps : List (String × String)) (r : Relay j)
      → AreAmong r.timers ps
      → (reject_all j ps r).timers ≡ []
  unfolding reject_all HashMap.get
  reject_all-timers [] r a = empty_of_AreAmong r.timers a
  reject_all-timers ((k, id) ∷ ps) r a =
      let cleared : Relay j = record r { timers = HashMap.remove k r.timers } in
      let e = send_value-timers (rejected_value j id "[msfs-bridge] Relay destroyed") cleared in
      reject_all-timers ps _ (λ i absent.
        ap (HashMap.get i) e
        ∙ ground (arith, HashMap.get-remove k i r.timers, a i, string_eq.equal_iff k i, absent))

  step-IsTimed : (r : Relay j) (op : Op j) → IsTimed r → IsTimed (step j r op)
  unfolding step init retry_bind on_open on_close destroy
  step-IsTimed r (inits binds) t = bind_comm_bus-IsTimed binds (record r { has_bus = true }) t
  step-IsTimed r (retries binds) t = if-IsTimed r.has_bus _ _ (bind_comm_bus-IsTimed binds r t) t
  step-IsTimed r (continues binds) t = bind_comm_bus-IsTimed binds r t
  step-IsTimed r (opens config now) t =
      send_ready-IsTimed _
        (send_value-IsTimed (hello_value j config now) (record r { is_open = true }) t)
  step-IsTimed r closes t = t
  step-IsTimed r (hears_host binds now raw) t = on_host_message-IsTimed binds now raw r t
  step-IsTimed r (hears_gauge shown raw) t = on_wasm_message-IsTimed shown raw r t
  step-IsTimed r (times_out k) t = request_timeout-IsTimed k r t
  step-IsTimed r (fails k why) t = fail_request-IsTimed k (rejection_text why) r t
  step-IsTimed r destroys t =
      reject_all-timers r.pending r (λ k absent. ap (HashMap.get k) t ∙ absent)

  pub run-IsTimed : (r : Relay j) (ops : List (Op j)) → IsTimed r → IsTimed (run j r ops)
  unfolding run
  run-IsTimed r [] t = t
  run-IsTimed r (op ∷ ops) t = run-IsTimed (step j r op) ops (step-IsTimed r op t)
