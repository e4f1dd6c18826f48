-- ===== src/Rescript/Runs.antt =====
-- The two relays do the same with what they hear.
use mathlib.Core.Path.{subst}
use infinity_wasm_bridge.Prelude.{
  ◌+◌, ◌<◌, ◌^◌, String, ◌≡◌, refl, ap, none, some, List, [], ◌∷◌, map, length, arith, ok, err,
  Result, All, ◌⊎◌, string_eq, inl, inr,
}
use infinity_wasm_bridge.Wire.Json.{Json}
use infinity_wasm_bridge.Wire.Decode.{◌>>=◌}
use infinity_wasm_bridge.Wasm.Dispatch.{Answers}
use infinity_wasm_bridge.Relay.State.{Relay}
use infinity_wasm_bridge.Relay.Bridge
use infinity_wasm_bridge.Relay.Bridge.{Rejection, an_error, a_value, rejection_text}
use infinity_wasm_bridge.Relay.Life
use infinity_wasm_bridge.Relay.Life.{Op}
use infinity_wasm_bridge.Rescript.Same.{
  IsSound, IsBelow, on_host_message-same, on_wasm_message-broken, on_wasm_message-unasked,
  on_wasm_message-answers, reject_request-same, request_timeout-same,
}
use infinity_wasm_bridge.Rescript.Counter.{
  Counts, on_host_message-Counts, on_wasm_message-Counts, request_timeout-Counts,
  fail_request-Counts,
}
use infinity_wasm_bridge.Rescript.Bridge.{
  Traffic, from_host, from_gauge, times_out, fails, next_seq, on_wasm_message, call_failed, step,
  run,
}

module _ (j : Json) where
  open j use {Value, Text, get, as_str, from_str}

  -- A text from the gauge is no JSON, has no string for a request, or is a response as the gauge makes it.
  abbrev pub IsFromGauge : Text → Type 0
  IsFromGauge raw =
      ((e : String) × (from_str raw ≡ err e))
      ⊎ ((msg : Value) × (from_str raw ≡ ok msg) × ((get msg "requestId" >>= as_str) ≡ none))
      ⊎ ((request_id : String) × (result : Result String Value) × Answers j request_id result raw)

  abbrev pub IsSoundRead : Result String Value → Type 0
  IsSoundRead (ok msg) = IsSound j msg
  IsSoundRead (err e) = Unit

  -- A text from the host is no JSON, or no command without a string for an id.
  abbrev pub IsFromHost : Text → Type 0
  IsFromHost raw = IsSoundRead (from_str raw)

  -- The same traffic for the relay in TypeScript, where `shown` is what `String` makes of a value.
  abbrev pub op_of : (Value → String) → Traffic j → Op j
  op_of shown (from_host binds now raw) = Life.hears_host binds now raw
  op_of shown (from_gauge raw) = Life.hears_gauge shown raw
  op_of shown (times_out request_id) = Life.times_out request_id
  op_of shown (fails request_id why) = Life.fails request_id why

  abbrev pub IsError : Rejection → Type 0
  IsError (an_error message) = Unit
  IsError (a_value t) = ⊥

  -- A command of the host has a string for an id, the texts from the gauge are of those kinds, and a call
  -- fails with an `Error`.
  abbrev pub IsRegular : Traffic j → Type 0
  IsRegular (from_host binds now raw) = IsFromHost raw
  IsRegular (from_gauge raw) = IsFromGauge raw
  IsRegular (fails request_id why) = IsError why
  IsRegular t = Unit

  on_wasm_message-same :
      (shown : Value → String) (raw : Text) (r : Relay j)
      → IsFromGauge raw
      → on_wasm_message j raw r ≡ Bridge.on_wasm_message j shown raw r
  on_wasm_message-same shown raw r kind = elim kind [
    | inl (e, broken) ↦ on_wasm_message-broken j shown raw e r broken
    | inr other ↦ elim other [
      | inl (msg, parsed, unasked) ↦ on_wasm_message-unasked j shown raw msg r parsed unasked
      | inr (request_id, result, a) ↦ on_wasm_message-answers j shown request_id result raw a r
    ]
  ]

  call_failed-same :
      (request_id : String) (why : Rejection) (r : Relay j)
      → IsError why
      → call_failed j request_id why r ≡ Bridge.call_failed j request_id why r
  unfolding call_failed
  call_failed-same request_id (an_error message) r regular =
      reject_request-same j request_id message r
  call_failed-same request_id (a_value t) r regular = absurd regular

  step-same :
      (shown : Value → String) (r : Relay j) (t : Traffic j)
      → IsBelow j r
      → IsRegular t
      → step j r t ≡ some (Life.step j r (op_of shown t))
  unfolding step Life.step
  step-same shown r (from_host binds now raw) below sound =
      on_host_message-same j binds now raw r below (λ msg parsed. subst IsSoundRead parsed sound)
  step-same shown r (from_gauge raw) below kind = ap some (on_wasm_message-same shown raw r kind)
  step-same shown r (times_out request_id) below u = ap some (request_timeout-same j request_id r)
  step-same shown r (fails request_id why) below regular =
      ap some (call_failed-same request_id why r regular)

  step-Counts :
      (shown : Value → String) (r : Relay j) (t : Traffic j)
      → Counts j r (Life.step j r (op_of shown t))
  unfolding Life.step
  step-Counts shown r (from_host binds now raw) = on_host_message-Counts j binds now raw r
  step-Counts shown r (from_gauge raw) = on_wasm_message-Counts j shown raw r
  step-Counts shown r (times_out request_id) = request_timeout-Counts j request_id r
  step-Counts shown r (fails request_id why) =
      fail_request-Counts j request_id (rejection_text why) r

  IsBelow-of_lt : (r : Relay j) → r.request_seq + 1 < 2 ^ 31 → IsBelow j r
  unfolding next_seq
  IsBelow-of_lt r few = ground arith

  -- From the same state, and with the same texts of the host and of the gauge, timers and failed calls in
  -- the same order, the two relays get to the same state and so have sent the same texts to the host
  -- and to the gauge. This is if each command of the host has a string for an id, each text of the
  -- gauge is no JSON, has no string for a request or is a response as the gauge makes it, each call
  -- that fails does so with an `Error`, and the counter of requests and the number of these events are
  -- together below 2 ^ 31.
  pub run-same :
      (shown : Value → String) (r : Relay j) (traffic : List (Traffic j))
      → All IsRegular traffic
      → r.request_seq + length traffic < 2 ^ 31
      → run j r traffic ≡ some (Life.run j r (map (op_of shown) traffic))
  unfolding run Life.run
  run-same shown r [] regular few = refl
  run-same shown r (t ∷ traffic) regular few =
      let r' = Life.step j r (op_of shown t) in
      let counted = step-Counts shown r t in
      let fewer : r'.request_seq + length traffic < 2 ^ 31 = omega arith in
      rw (step-same shown r t (IsBelow-of_lt r (omega arith)) regular.0)
        (run-same shown r' traffic regular.1 fewer)
