-- ===== src/Gauge/Steady.antt =====
-- What no message can change in the gauge of examples/wasm_gauge_example.rs.
use mathlib.Core.Path.{subst}
use infinity_wasm_bridge.Prelude.{
  ℕ, String, ◌≡◌, refl, sym, ap, ◌∙◌, Bool, true, Option, none, some, List, [], ◌∷◌, ◌++◌, map,
  nat_eq, string_eq, if◌then◌else◌, Option-cases, inl, inr, arith, eq_of_some-eq,
}
use infinity_wasm_bridge.Wire.Json.{Json}
use infinity_wasm_bridge.Wire.Decode.{◌>>=◌}
use infinity_wasm_bridge.Wire.Msg.{event, new_event}
use infinity_wasm_bridge.Wire.Decode.{from_json}
use infinity_wasm_bridge.Wasm.Bridge.{Bridge}
use infinity_wasm_bridge.Wasm.Kept.{Keeps, dispatch-Keeps}
use infinity_wasm_bridge.Wasm.Relayed.{emit-called}
use infinity_wasm_bridge.Gauge.Sim.{
  EquipmentEntry, SimState, flip, equip_cmd, apply_config, state_json, gauge_router,
}
use infinity_wasm_bridge.Gauge.Equipment.{Toggles, run_equip_cmd-equip_cmd, run_equip_cmd-Toggles}
use infinity_wasm_bridge.Gauge.System.{
  Msfs, msfs_comm_bus, MyGauge, callback, update, Signal, frame, arrives, react, live,
}

-- What is fixed of an entry: all but the flag of one that is available.
pub record Fixed : Type 0 where
  pub idx : ℕ
  pub label : String
  pub available : Bool
  pub held : Option Bool

abbrev pub fixed : EquipmentEntry → Fixed
fixed e = record {
  idx = e.idx;
  label = e.label;
  available = e.available;
  held = if e.available then none else some e.active;
}

fixed-flip : (e : EquipmentEntry) → e.available ≡ true → fixed (flip e) ≡ fixed e
fixed-flip e free = ground arith

fixed-++ :
    (before after : List EquipmentEntry) (e e' : EquipmentEntry)
    → fixed e' ≡ fixed e
    → map fixed (before ++ e' ∷ after) ≡ map fixed (before ++ e ∷ after)
fixed-++ [] after e e' same = ap (λ x. x ∷ map fixed after) same
fixed-++ (x ∷ before) after e e' same = ap (λ xs. fixed x ∷ xs) (fixed-++ before after e e' same)

fixed-Toggles :
    (idx : ℕ) (es es' : List EquipmentEntry) → Toggles idx es es' → map fixed es' ≡ map fixed es
fixed-Toggles idx es es' t =
    ap (map fixed) t.new
    ∙ fixed-++ t.before t.after t.entry (flip t.entry) (fixed-flip t.entry t.available)
    ∙ ap (map fixed) (sym t.old)

module _ {F : Type 0} where
  -- The temperature and what is fixed of the equipment are those of `s`.
  pub record IsSteady (s s' : SimState F) : Type 0 where
    pub temperature : s'.temperature ≡ s.temperature
    pub equipment : map fixed s'.equipment ≡ map fixed s.equipment

module _ (j : Json) {F : Type 0} (f64 : F → j.Value) where
  open j use {Value, Text, get, as_str}

  equip_cmd-IsSteady :
      (origin : SimState F) (payload : Value) (s : SimState F)
      → IsSteady origin s
      → IsSteady origin (equip_cmd j f64 payload s).1
  equip_cmd-IsSteady origin payload s v =
      rw⁻¹ (run_equip_cmd-equip_cmd j f64 payload s) (elim (run_equip_cmd-Toggles j f64 payload s) [
        | inl (missing, failed) ↦ rw failed v
        | inr (n, found, outcome) ↦ elim outcome [
          | inl (none_of, failed) ↦ rw failed v
          | inr other ↦ elim other [
            | inl (label, held, failed) ↦ rw failed v
            | inr (es, t, done, undone) ↦ rw done (record {
              temperature = v.temperature;
              equipment = fixed-Toggles _ _ _ t ∙ v.equipment;
            })
          ]
        ]
      ])

  apply_config-IsSteady :
      (origin : SimState F) (payload : Value) (s : SimState F)
      → IsSteady origin s
      → IsSteady origin (apply_config j f64 payload s)
  apply_config-IsSteady origin payload s v = elim (Option-cases (get payload "phase" >>= as_str)) [
    | inl missing ↦ rw (apply_config, missing) v
    | inr (phase, found) ↦
        rw (apply_config, found) (record { temperature = v.temperature; equipment = v.equipment })
  ]

  gauge_router-Keeps : (origin : SimState F) → Keeps (IsSteady origin) (gauge_router j f64)
  unfolding gauge_router
  gauge_router-Keeps origin = record {
    commands = (
      λ payload s v. v,
      (λ payload s v. equip_cmd-IsSteady origin payload s v, (λ payload s v. v, tt)),
    );
    events = (λ payload s v. apply_config-IsSteady origin payload s v, tt);
    unknown = λ f name payload s same v.
        subst (λ g. IsSteady origin (g name payload s).1) (eq_of_some-eq same) v;
  }

  module _ (m : Msfs Text) where
    open m use {World, Bytes, from_utf8}

    callback-IsSteady :
        (origin : SimState F) (response_event : String) (bytes : Bytes) (s : SimState F) (w : World)
        → IsSteady origin s
        → IsSteady origin (callback j m f64 response_event bytes s w).0
    unfolding callback
    callback-IsSteady origin response_event bytes s w v = elim (Option-cases (from_utf8 bytes)) [
      | inl broken ↦ rw (callback, broken) v
      | inr (raw, decoded) ↦
          rw (callback, decoded)
            (dispatch-Keeps j (msfs_comm_bus m) (IsSteady origin) (gauge_router j f64)
              response_event raw s w (gauge_router-Keeps origin) v)
    ]

    react-IsSteady :
        (origin : SimState F) (signal : Signal j m f64) (g : MyGauge j m f64) (w : World)
        → IsSteady origin g.0
        → IsSteady origin (react j m f64 signal g w).0.0
    unfolding react update
    react-IsSteady origin frame g w v = v
    react-IsSteady origin (arrives bytes) (s, bridge) w v =
        callback-IsSteady origin bridge.response_event bytes s w v

    live-IsSteady_from :
        (origin : SimState F) (signals : List (Signal j m f64)) (g : MyGauge j m f64) (w : World)
        → IsSteady origin g.0
        → IsSteady origin (live j m f64 signals g w).0.0
    unfolding live
    live-IsSteady_from origin [] g w v = v
    live-IsSteady_from origin (signal ∷ signals) g w v =
        let (g', w') = react j m f64 signal g w in
        live-IsSteady_from origin signals g' w' (react-IsSteady origin signal g w v)

    -- Whatever bytes the simulator delivers to the gauge, and however many frames pass: no entry of its
    -- equipment is added, removed, moved, renamed or made available or unavailable, no unavailable
    -- entry is switched, and the temperature stays as it was.
    pub live-IsSteady :
        (signals : List (Signal j m f64)) (g : MyGauge j m f64) (w : World)
        → IsSteady g.0 (live j m f64 signals g w).0.0
    live-IsSteady signals g w =
        live-IsSteady_from g.0 signals g w (record { temperature = refl; equipment = refl })

    -- A frame hands the simulator the bytes of one text, on the event of the responses, which reads as
    -- the telemetry of the state as it is then; it changes nothing in the gauge and keeps it running,
    -- whether or not the call fails.
    pub update-called :
        (s : SimState F) (bridge : Bridge m.Subscription) (w : World)
        → (text : Text) × (from_json j text
            ≡ some (event (new_event "telemetry" (state_json j f64 s))))
          × (update j m f64 (s, bridge) w
              ≡ (true, (s, bridge), (m.call_all bridge.response_event (m.as_bytes text) w).1))
    unfolding update
    update-called s bridge w =
        let (text, reads, called) =
          emit-called j (msfs_comm_bus m) bridge "telemetry" (state_json j f64 s) w in
        (text, reads, λ i. (true, (s, bridge), (called i).1))
