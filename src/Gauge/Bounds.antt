-- ===== src/Gauge/Bounds.antt =====
-- The range of the fake gauge's telemetry.
use infinity_wasm_bridge.Prelude.{
  ℕ, ◌+◌, ◌*◌, ◌%◌, ◌≤◌, ◌<◌, ◌≡◌, refl, pos, Bool, true, false, none, some, List, [], ◌∷◌, arith,
  if◌then◌else◌, ltb, Bool-cases, inl, inr,
}
use infinity_wasm_bridge.Wire.Json.{Json}
use infinity_wasm_bridge.Wire.Decode.{from_json}
use infinity_wasm_bridge.Wire.RoundTrip.{from_json-to_json}
use infinity_wasm_bridge.Gauge.Telemetry.{
  Reading, checked_u32, read_instruments, telemetry, emit_telemetry,
}

-- What the host may rely on. The last tick before the panic is 21 474 836.
pub record IsSound (x : Reading) : Type 0 where
  pub feet : ℕ
  pub altitude : x.altitude_ft ≡ pos feet
  pub low : 35000 ≤ feet
  pub high : feet < 37000
  pub slow : 280 ≤ x.speed_kts
  pub fast : x.speed_kts < 300
  pub turned : x.heading_deg < 360
  pub sector : x.heading_deg % 15 ≡ 0
  pub last : x.tick ≤ 21474836

-- The reading of a tick at which nothing overflows.
abbrev pub plain : ℕ → Reading
plain tick = record {
  altitude_ft = pos (35000 + tick * 100 % 2000);
  speed_kts = 280 + tick % 20;
  heading_deg = tick * 15 % 360;
  tick = tick;
}

read_instruments-plain : (tick : ℕ) → tick ≤ 21474836 → read_instruments tick ≡ some (plain tick)
unfolding read_instruments
read_instruments-plain tick small = ground arith

read_instruments-none : (tick : ℕ) → tick ≡ 21474837 → read_instruments tick ≡ none
unfolding read_instruments
read_instruments-none tick e = ground arith

plain-IsSound : (tick : ℕ) → tick ≤ 21474836 → IsSound (plain tick)
plain-IsSound tick small = record {
  feet = 35000 + tick * 100 % 2000;
  altitude = refl;
  low = omega arith;
  high = omega arith;
  slow = omega arith;
  fast = omega arith;
  turned = omega arith;
  sector = omega arith;
  last = small;
}

-- The ticks that are sent from the tick before on: one for each round in which the channel is open, up
-- to the first round in which it is closed and to the last tick.
abbrev pub ticks_sent : List Bool → ℕ → List ℕ
ticks_sent [] tick = []
ticks_sent (open_yet ∷ rounds) tick =
    let rest = ticks_sent rounds (tick + 1) in
    if ltb tick 21474836 then if open_yet then (tick + 1) ∷ rest else [] else []

module _ (j : Json) where
  open j use {Value, Text}

  -- The texts read as the telemetry of the ticks, and each reading is in range.
  abbrev pub Tells : List Text → List ℕ → Type 0
  Tells [] [] = Unit
  Tells (text ∷ texts) (tick ∷ ticks) =
      (from_json j text ≡ some (telemetry j (plain tick)))
      × IsSound (plain tick)
      × Tells texts ticks
  Tells _ _ = ⊥

  sent-Tells :
      (open_yet : Bool) (text : Text) (texts : List Text) (tick : ℕ) (ticks : List ℕ)
      → from_json j text ≡ some (telemetry j (plain tick))
      → IsSound (plain tick)
      → Tells texts ticks
      → Tells
          (elim open_yet [ true ↦ text ∷ texts | false ↦ [] ])
          (if open_yet then tick ∷ ticks else [])
  sent-Tells true text texts tick ticks parsed sound rest = (parsed, sound, rest)
  sent-Tells false text texts tick ticks parsed sound rest = tt

  emit_telemetry-from :
      (rounds : List Bool) (tick : ℕ)
      → tick ≤ 21474836
      → Tells (emit_telemetry j rounds tick) (ticks_sent rounds tick)
  unfolding emit_telemetry
  emit_telemetry-from [] tick small = tt
  emit_telemetry-from (open_yet ∷ rounds) tick small =
      let counted : checked_u32 (tick + 1) ≡ some (tick + 1) = ground arith in
      elim (Bool-cases (ltb tick 21474836)) [
        | inl before ↦
            let low : tick + 1 ≤ 21474836 = ground arith in
            let reads = read_instruments-plain (tick + 1) low in
            let (text, printed, parsed) = from_json-to_json j (telemetry j (plain (tick + 1))) tt in
            rw (before, counted, emit_telemetry, reads, printed)
              (sent-Tells open_yet text (emit_telemetry j rounds (tick + 1)) (tick + 1)
                (ticks_sent rounds (tick + 1)) parsed (plain-IsSound (tick + 1) low)
                (emit_telemetry-from rounds (tick + 1) low))
        | inr last ↦
            let over : tick + 1 ≡ 21474837 = ground arith in
            rw (last, counted, emit_telemetry, read_instruments-none (tick + 1) over) tt
      ]

  -- The telemetry task sends one text for each of its rounds, up to the first at which the channel is
  -- closed and up to tick 21 474 836, since the next one overflows an `i32`, which panics. Each reads
  -- as the `telemetry` event of its tick, with an altitude from 35000 to 36999 feet, a speed from 280
  -- to 299 knots and a heading that is a multiple of 15 below 360 degrees.
  pub emit_telemetry-Tells :
      (rounds : List Bool) → Tells (emit_telemetry j rounds 0) (ticks_sent rounds 0)
  emit_telemetry-Tells rounds = emit_telemetry-from rounds 0 (omega arith)
