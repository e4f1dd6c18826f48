-- ===== src/Gauge/Sim.antt =====
-- examples/wasm_gauge_example.rs, the pattern of a gauge (the code stands there in comments): its state,
-- the handlers of its commands and events, and its router. A temperature is an `f64`, of which only its
-- JSON value matters.
use Prim.Native.String
use infinity_wasm_bridge.Prelude.{
  ℕ, ◌%◌, ◌^◌, String, Bool, true, false, not, none, some, List, [], ◌∷◌, map, Result, ok, err,
  unwrap_or, if◌then◌else◌, ◌==◌, nat_eq,
}
use infinity_wasm_bridge.Prelude.Decimal.{show_u64}
use infinity_wasm_bridge.Wire.Json.{Json}
use infinity_wasm_bridge.Wire.Decode.{◌>>=◌}
use infinity_wasm_bridge.Wasm.Handler.{Answer}
use infinity_wasm_bridge.Wasm.Router
use infinity_wasm_bridge.Wasm.Router.{Router}

pub record EquipmentEntry : Type 0 where
  pub idx : ℕ
  pub label : String
  pub available : Bool
  pub active : Bool

pub record SimState (F : Type 0) : Type 0 where
  pub temperature : F
  pub phase : String
  pub equipment : List EquipmentEntry

-- `SimState::new`, where `temperature` is 15.0.
abbrev pub new_state : {F : Type 0} → F → SimState F
new_state temperature = record {
  temperature = temperature;
  phase = "preflight";
  equipment =
      record { idx = 0; label = "AINS-70"; available = true; active = true }
      ∷ record { idx = 1; label = "CIV-A"; available = true; active = false }
      ∷ [];
}

abbrev pub flip : EquipmentEntry → EquipmentEntry
flip e = record e { active = not e.active }

-- `toggle_equipment`, on the list of the equipment: the first entry of that index.
unfoldable pub toggle_equipment : ℕ → List EquipmentEntry → Result String (List EquipmentEntry)
toggle_equipment idx [] =
    err (String.◌++◌ "equipment idx " (String.◌++◌ (show_u64 idx) " not found"))
toggle_equipment idx (e ∷ es) =
    let rest = toggle_equipment idx es in
    if e.idx == idx
    then if e.available
      then ok (flip e ∷ es)
      else err (String.◌++◌ "equipment '" (String.◌++◌ e.label "' is not available"))
    else elim rest [ ok es' ↦ ok (e ∷ es') | err m ↦ err m ]

module _ (j : Json) {F : Type 0} (f64 : F → j.Value) where
  open j use {Value, get, as_u64, as_str, bool, u64, string, array, object}

  abbrev pub equipment_json : SimState F → Value
  equipment_json s = object (
      (
        "entries",
        array (
            map
              (λ (e : EquipmentEntry). object (
                ("idx", u64 e.idx)
                ∷ ("label", string e.label)
                ∷ ("available", bool e.available)
                ∷ ("active", bool e.active)
                ∷ []))
              s.equipment),
      )
      ∷ [])

  abbrev pub state_json : SimState F → Value
  state_json s = object (("temperature", f64 s.temperature) ∷ ("phase", string s.phase) ∷ [])

  abbrev pub apply_config : Value → SimState F → SimState F
  apply_config payload s = elim (get payload "phase" >>= as_str) [
    | none ↦ s
    | some phase ↦ record s { phase = phase }
  ]

  abbrev pub equip_query : Value → SimState F → Answer Value (SimState F)
  equip_query payload s = (ok (equipment_json s), s)

  -- `as u8` keeps the last eight bits.
  unfoldable pub equip_cmd : Value → SimState F → Answer Value (SimState F)
  unfolding toggle_equipment
  equip_cmd payload s = elim (get payload "equipIdx" >>= as_u64) [
    | none ↦ (err "missing equipIdx", s)
    | some n ↦ elim (toggle_equipment (n % 2 ^ 8) s.equipment) [
      | err e ↦ (err (String.◌++◌ "CMD_FAILED: " e), s)
      | ok es ↦ let s' : SimState F = record s { equipment = es } in (ok (equipment_json s'), s')
    ]
  ]

  abbrev pub get_state : Value → SimState F → Answer Value (SimState F)
  get_state payload s = (ok (state_json s), s)

  unfoldable pub gauge_router : Router Value (SimState F)
  unfolding Router.new Router.command Router.event Router.fallback equip_cmd
  gauge_router =
      let queries = Router.command Router.new "equip_query" equip_query in
      let commands =
        Router.command (Router.command queries "equip_cmd" equip_cmd) "get_state" get_state in
      let events = Router.event commands "config_updated" apply_config in
      Router.fallback events
        (λ name payload s. (err (String.◌++◌ "UNKNOWN_COMMAND: " (unwrap_or name "<unnamed>")), s))
