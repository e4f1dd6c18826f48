-- ===== src/Gauge/SessionTests.antt =====
-- The telemetry, a command of the host and the equipment command at concrete inputs.
use infinity_wasm_bridge.Prelude.{
  ℕ, ◌<◌, ◌^◌, ◌≡◌, refl, ◌⊎◌, true, false, none, some, [], ◌∷◌, err, arith, length, nat_eq, is_ok,
}
use infinity_wasm_bridge.Prelude.HashMap
use infinity_wasm_bridge.Prelude.Decimal.{show_u64}
use infinity_wasm_bridge.Wire.Error.{application_error}
use infinity_wasm_bridge.Wire.Decode.{◌>>=◌}
use infinity_wasm_bridge.Wire.Sample.{Tree, nil, num, obj, entries, trees, member, to_num}
use infinity_wasm_bridge.Host.Hub.{Hub, new, register_client, is_ready}
use infinity_wasm_bridge.Host.Steps.{registers, step, run}
use infinity_wasm_bridge.Host.Pending.{new-HasSlots}
use infinity_wasm_bridge.Host.Call.{command}
use infinity_wasm_bridge.Host.Returned.{immediate}
use infinity_wasm_bridge.Host.Sample.{pipes, no_traffic, no_slots}
use infinity_wasm_bridge.Gauge.Telemetry.{emit_telemetry, read_instruments}
use infinity_wasm_bridge.Gauge.Bounds.{Tells, emit_telemetry-Tells}
use infinity_wasm_bridge.Gauge.Session.{answers, command-gauge_result}
use infinity_wasm_bridge.Gauge.Sim.{SimState, new_state, gauge_router, equip_cmd, toggle_equipment}
use infinity_wasm_bridge.Wasm.Router
use infinity_wasm_bridge.Gauge.Equipment.{Outcome, run_equip_cmd, run_equip_cmd-Toggles}

emit_telemetry-Tells_example :
    Tells trees (emit_telemetry trees (true ∷ true ∷ false ∷ true ∷ []) 0) (1 ∷ 2 ∷ [])
emit_telemetry-Tells_example = emit_telemetry-Tells trees (true ∷ true ∷ false ∷ true ∷ [])

-- The tick at which the task panics.
panics : read_instruments 21474837 ≡ none
unfolding read_instruments
panics = refl

abbrev hub : Hub trees pipes
hub = run trees pipes (new trees pipes 16 no_traffic no_slots) (registers 3 100 ∷ [])

few : length hub.clients < 2 ^ 64
unfolding run step register_client new HashMap.insert
few = omega arith

taken : immediate trees pipes hub ≡ none
unfolding run step register_client new HashMap.insert is_ready
taken = refl

command-gauge_result_example :
    (command trees pipes "abc-123"
      (some "nonexistent_command")
      nil
      3
      []
      (answers trees pipes 1 120 "abc-123" (some "nonexistent_command") nil)
      hub).0
    ≡ err (application_error "UNKNOWN_COMMAND: nonexistent_command")
command-gauge_result_example =
    command-gauge_result trees pipes 1 120 "abc-123" 3 (some "nonexistent_command") nil hub
      (new-HasSlots trees pipes 16 no_traffic no_slots (registers 3 100 ∷ [])) few taken

abbrev state : SimState ℕ
state = new_state 15

-- The index 257 stands for 1.
abbrev payload : Tree
payload = obj (entries (("equipIdx", num 257) ∷ ("cmd", num 2) ∷ []))

run_equip_cmd-Toggles_example :
    ((member payload "equipIdx" >>= to_num) ≡ none
      × (run_equip_cmd trees num payload state ≡ (err "missing equipIdx", state)))
    ⊎ ((n : ℕ) × ((member payload "equipIdx" >>= to_num) ≡ some n)
        × Outcome trees num payload state n)
run_equip_cmd-Toggles_example = run_equip_cmd-Toggles trees num payload state

-- That command succeeds, one for an entry that is not available is refused, and so is one for no entry.
abbrev grounded : SimState ℕ
grounded = record state {
  equipment = record { idx = 3; label = "Pump"; available = false; active = false } ∷ [];
}

equips :
    (is_ok (run_equip_cmd trees num payload state).0 ≡ true)
    × ((run_equip_cmd trees num (obj (entries (("equipIdx", num 3) ∷ []))) grounded).0
        ≡ err "CMD_FAILED: equipment 'Pump' is not available")
    × ((run_equip_cmd trees num payload grounded).0 ≡ err "CMD_FAILED: equipment idx 1 not found")
unfolding gauge_router Router.on_command equip_cmd toggle_equipment show_u64
equips = (refl, refl, refl)
