-- ===== src/Gauge/Telemetry.antt =====
-- examples/host-app/src/fake_gauge.rs: its periodic telemetry. Arithmetic that overflows panics, as it
-- does under `cargo run`; a panic ends the task.
use infinity_wasm_bridge.Prelude.{
  ℕ, ◌+◌, ◌*◌, ◌%◌, ◌^◌, ◌-◌, ℤ, pos, negsuc, Bool, true, false, Option, none, some, List, [], ◌∷◌,
  ok, err, if◌then◌else◌, ltb,
}
use infinity_wasm_bridge.Wire.Json.{Json}
use infinity_wasm_bridge.Wire.Msg.{WireMsg, event, new_event}
use infinity_wasm_bridge.Wire.Encode.{to_json}
use infinity_wasm_bridge.Wire.Decode.{◌>>=◌}

-- The result of an operation on `u32` that must not overflow.
abbrev pub checked_u32 : ℕ → Option ℕ
checked_u32 n = if ltb n (2 ^ 32) then some n else none

-- `n as i32`, for a `u32`.
abbrev pub as_i32 : ℕ → ℤ
as_i32 n = if ltb n (2 ^ 31) then pos n else negsuc (2 ^ 32 - n - 1)

-- `x * 100` on `i32`.
abbrev pub times_100 : ℤ → Option ℤ
times_100 (pos n) = if ltb (n * 100) (2 ^ 31) then some (pos (n * 100)) else none
times_100 (negsuc n) =
    if ltb ((n + 1) * 100) (2 ^ 31 + 1) then some (negsuc ((n + 1) * 100 - 1)) else none

-- `35000 + x % 2000` on `i32`, where `%` keeps the sign of `x`.
abbrev pub near_35000 : ℤ → ℤ
near_35000 (pos n) = pos (35000 + n % 2000)
near_35000 (negsuc n) = pos (35000 - (n + 1) % 2000)

pub record Reading : Type 0 where
  pub altitude_ft : ℤ
  pub speed_kts : ℕ
  pub heading_deg : ℕ
  pub tick : ℕ

unfoldable pub read_instruments : ℕ → Option Reading
read_instruments tick = do
  climbed ← times_100 (as_i32 tick)
  turned ← checked_u32 (tick * 15)
  some (record {
    altitude_ft = near_35000 climbed;
    speed_kts = 280 + tick % 20;
    heading_deg = turned % 360;
    tick = tick;
  })

module _ (j : Json) where
  open j use {Value, Text, u64, i64, object}

  abbrev pub telemetry : Reading → WireMsg Value
  telemetry x = event (
      new_event "telemetry" (
        object (
          ("altitude_ft", i64 x.altitude_ft)
          ∷ ("speed_kts", u64 x.speed_kts)
          ∷ ("heading_deg", u64 x.heading_deg)
          ∷ ("tick", u64 x.tick)
          ∷ [])))

  -- The loop of the task, from the tick before. Each round finds `out_tx` open or closed.
  unfoldable pub emit_telemetry : List Bool → ℕ → List Text
  emit_telemetry [] tick = []
  emit_telemetry (open_yet ∷ rounds) tick = elim (checked_u32 (tick + 1)) [
    | none ↦ []
    | some next ↦ elim (read_instruments next) [
      | none ↦ []
      | some x ↦ elim (to_json j (telemetry x)) [
        | err e ↦ emit_telemetry rounds next
        | ok text ↦ elim open_yet [ true ↦ text ∷ emit_telemetry rounds next | false ↦ [] ]
      ]
    ]
  ]
