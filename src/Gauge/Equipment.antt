-- ===== src/Gauge/Equipment.antt =====
-- The equipment command of the gauge in examples/wasm_gauge_example.rs.
use Prim.Native.String
use infinity_wasm_bridge.Prelude.{
  ℕ, ◌%◌, ◌^◌, String, ◌≡◌, refl, ◌≢◌, ◌⊎◌, true, false, none, some, List, [], ◌∷◌, ◌++◌, ◌∙◌, ap,
  arith, All, Result, ok, err, ◌==◌, nat_eq, nat_beq_iff, Bool-cases, Option-cases, inl, inr,
  string_eq,
}
use infinity_wasm_bridge.Wire.Json.{Json}
use infinity_wasm_bridge.Wire.Decode.{◌>>=◌}
use infinity_wasm_bridge.Prelude.Decimal.{show_u64}
use infinity_wasm_bridge.Wasm.Router
use infinity_wasm_bridge.Wasm.Router.{Router}
use infinity_wasm_bridge.Gauge.Sim.{
  EquipmentEntry, SimState, flip, toggle_equipment, equipment_json, equip_cmd, gauge_router,
}

flip-flip : (e : EquipmentEntry) → flip (flip e) ≡ e
flip-flip e = ground arith

-- `es'` is `es` with the first entry of the index turned over, which is available.
pub record Toggles (idx : ℕ) (es es' : List EquipmentEntry) : Type 0 where
  pub before : List EquipmentEntry
  pub entry : EquipmentEntry
  pub after : List EquipmentEntry
  pub others : All (λ (e : EquipmentEntry). e.idx ≢ idx) before
  pub idx_eq : entry.idx ≡ idx
  pub available : entry.available ≡ true
  pub old : es ≡ before ++ entry ∷ after
  pub new : es' ≡ before ++ flip entry ∷ after

toggle_equipment-++ :
    (idx : ℕ) (before : List EquipmentEntry) (entry : EquipmentEntry) (after : List EquipmentEntry)
    → All (λ (e : EquipmentEntry). e.idx ≢ idx) before
    → entry.idx ≡ idx
    → entry.available ≡ true
    → toggle_equipment idx (before ++ entry ∷ after) ≡ ok (before ++ flip entry ∷ after)
unfolding toggle_equipment
toggle_equipment-++ idx [] entry after others same free = ground arith
toggle_equipment-++ idx (e ∷ before) entry after others same free =
    let rest = toggle_equipment-++ idx before entry after others.1 same free in
    ground (arith, rest, nat_beq_iff e.idx idx, others.0)

-- The first entry of the index in `es` has this label and is not available.
pub record IsHeld (idx : ℕ) (label : String) (es : List EquipmentEntry) : Type 0 where
  pub before : List EquipmentEntry
  pub entry : EquipmentEntry
  pub after : List EquipmentEntry
  pub others : All (λ (e : EquipmentEntry). e.idx ≢ idx) before
  pub idx_eq : entry.idx ≡ idx
  pub held : entry.available ≡ false
  pub label_eq : entry.label ≡ label
  pub old : es ≡ before ++ entry ∷ after

abbrev pub not_found : ℕ → String
not_found idx = String.◌++◌ "equipment idx " (String.◌++◌ (show_u64 idx) " not found")

abbrev pub not_available : String → String
not_available label = String.◌++◌ "equipment '" (String.◌++◌ label "' is not available")

-- What `toggle_equipment` makes of the entries, and when.
abbrev Toggled : ℕ → List EquipmentEntry → Result String (List EquipmentEntry) → Type 0
Toggled idx es result =
    (All (λ (e : EquipmentEntry). e.idx ≢ idx) es × (result ≡ err (not_found idx)))
    ⊎ ((label : String) × IsHeld idx label es × (result ≡ err (not_available label)))
    ⊎ ((es' : List EquipmentEntry) × Toggles idx es es' × (result ≡ ok es'))

toggle_equipment-same :
    (idx : ℕ) (e : EquipmentEntry) (es : List EquipmentEntry)
    → e.idx ≡ idx
    → Toggled idx (e ∷ es) (toggle_equipment idx (e ∷ es))
unfolding toggle_equipment
toggle_equipment-same idx e es same =
    let same' = (nat_beq_iff e.idx idx).1 same in
    elim (Bool-cases e.available) [
      | inl free ↦
          let t : Toggles idx (e ∷ es) (flip e ∷ es) = record {
            before = [];
            entry = e;
            after = es;
            others = tt;
            idx_eq = same;
            available = free;
            old = refl;
            new = refl;
          } in
          inr (inr (flip e ∷ es, t, rw (same', free) refl))
      | inr held ↦
          let h : IsHeld idx e.label (e ∷ es) = record {
            before = [];
            entry = e;
            after = es;
            others = tt;
            idx_eq = same;
            held = held;
            label_eq = refl;
            old = refl;
          } in
          inr (inl (e.label, h, rw (same', held) refl))
    ]

toggle_equipment-Toggled :
    (idx : ℕ) (es : List EquipmentEntry) → Toggled idx es (toggle_equipment idx es)
unfolding toggle_equipment
toggle_equipment-Toggled idx [] = inl (tt, refl)
toggle_equipment-Toggled idx (e ∷ es) = elim (Bool-cases (e.idx == idx)) [
  | inl same ↦ toggle_equipment-same idx e es ((nat_beq_iff e.idx idx).0 same)
  | inr differs ↦
      let other : e.idx ≢ idx = (ground (arith, nat_beq_iff e.idx idx)) in
      elim (toggle_equipment-Toggled idx es) [
        | inl (none_of, failed) ↦ inl ((other, none_of), rw (differs, failed) refl)
        | inr rest ↦ elim rest [
          | inl (label, h, failed) ↦
              let h' : IsHeld idx label (e ∷ es) = record {
                before = e ∷ h.before;
                entry = h.entry;
                after = h.after;
                others = (other, h.others);
                idx_eq = h.idx_eq;
                held = h.held;
                label_eq = h.label_eq;
                old = ap (λ xs. e ∷ xs) h.old;
              } in
              inr (inl (label, h', rw (differs, failed) refl))
          | inr (es', t, done) ↦
              let t' : Toggles idx (e ∷ es) (e ∷ es') = record {
                before = e ∷ t.before;
                entry = t.entry;
                after = t.after;
                others = (other, t.others);
                idx_eq = t.idx_eq;
                available = t.available;
                old = ap (λ xs. e ∷ xs) t.old;
                new = ap (λ xs. e ∷ xs) t.new;
              } in
              inr (inr (e ∷ es', t', rw (differs, done) refl))
        ]
      ]
]

toggled-back :
    {idx : ℕ} {es es' : List EquipmentEntry} → Toggles idx es es' → toggle_equipment idx es' ≡ ok es
toggled-back {idx} t =
    rw (t.new, t.old)
      (toggle_equipment-++ idx t.before (flip t.entry) t.after t.others t.idx_eq t.available
        ∙ ap (λ e. ok (t.before ++ e ∷ t.after)) (flip-flip t.entry))

module _ (j : Json) {F : Type 0} (f64 : F → j.Value) where
  open j use {Value, get, as_u64}

  abbrev pub run_equip_cmd : Value → SimState F → Result String Value × SimState F
  run_equip_cmd = Router.on_command (gauge_router j f64) (some "equip_cmd")

  pub run_equip_cmd-equip_cmd :
      (payload : Value) (s : SimState F) → run_equip_cmd payload s ≡ equip_cmd j f64 payload s
  unfolding gauge_router Router.on_command
  run_equip_cmd-equip_cmd payload s = refl

  equip_cmd-ok :
      (payload : Value) (s : SimState F) (n : ℕ) (es : List EquipmentEntry)
      → (get payload "equipIdx" >>= as_u64) ≡ some n
      → toggle_equipment (n % 2 ^ 8) s.equipment ≡ ok es
      → run_equip_cmd payload s
        ≡ (ok (equipment_json j f64 (record s { equipment = es })), record s { equipment = es })
  unfolding equip_cmd
  equip_cmd-ok payload s n es found done =
      run_equip_cmd-equip_cmd payload s ∙ rw (equip_cmd, found, done)

  equip_cmd-err :
      (payload : Value) (s : SimState F) (n : ℕ) (m : String)
      → (get payload "equipIdx" >>= as_u64) ≡ some n
      → toggle_equipment (n % 2 ^ 8) s.equipment ≡ err m
      → run_equip_cmd payload s ≡ (err (String.◌++◌ "CMD_FAILED: " m), s)
  unfolding equip_cmd
  equip_cmd-err payload s n m found failed =
      run_equip_cmd-equip_cmd payload s ∙ rw (equip_cmd, found, failed) refl

  -- What the command does with the number of its payload, of which the last eight bits count.
  abbrev pub Outcome : Value → SimState F → ℕ → Type 0
  Outcome payload s n =
      (All (λ (e : EquipmentEntry). e.idx ≢ n % 2 ^ 8) s.equipment
        × (run_equip_cmd payload s ≡ (err (String.◌++◌ "CMD_FAILED: " (not_found (n % 2 ^ 8))), s)))
      ⊎ ((label : String) × IsHeld (n % 2 ^ 8) label s.equipment
          × (run_equip_cmd payload s ≡ (err (String.◌++◌ "CMD_FAILED: " (not_available label)), s)))
      ⊎ ((es : List EquipmentEntry) × Toggles (n % 2 ^ 8) s.equipment es
          × (run_equip_cmd payload s ≡ (
            ok (equipment_json j f64 (record s { equipment = es })),
            record s { equipment = es },
          ))
          × ((run_equip_cmd payload (record s { equipment = es })).1 ≡ s))

  run_equip_cmd-Outcome :
      (payload : Value) (s : SimState F) (n : ℕ)
      → (get payload "equipIdx" >>= as_u64) ≡ some n
      → Outcome payload s n
  run_equip_cmd-Outcome payload s n found =
      elim (toggle_equipment-Toggled (n % 2 ^ 8) s.equipment) [
        | inl (none_of, failed) ↦ inl (none_of, equip_cmd-err payload s n _ found failed)
        | inr rest ↦ elim rest [
          | inl (label, h, failed) ↦ inr (inl (label, h, equip_cmd-err payload s n _ found failed))
          | inr (es, t, done) ↦
              let s' : SimState F = record s { equipment = es } in
              let undone : toggle_equipment (n % 2 ^ 8) es ≡ ok s.equipment = toggled-back t in
              let again = equip_cmd-ok payload s' n s.equipment found undone in
              inr (inr (es, t, equip_cmd-ok payload s n es found done, rw again refl))
        ]
      ]

  -- The command fails with "missing equipIdx" if `equipIdx` is no number. Else its last eight bits are an
  -- index. If no entry has it, the command fails with the text that says so; if the first entry that
  -- has it is not available, with the text that names that entry; both change nothing. If that entry
  -- is available, the command succeeds: the entry is turned over, all else is as it was, the answer is
  -- the new equipment, and the same command once more undoes it.
  pub run_equip_cmd-Toggles :
      (payload : Value) (s : SimState F)
      → ((get payload "equipIdx" >>= as_u64) ≡ none
          × (run_equip_cmd payload s ≡ (err "missing equipIdx", s)))
        ⊎ ((n : ℕ) × ((get payload "equipIdx" >>= as_u64) ≡ some n) × Outcome payload s n)
  unfolding equip_cmd
  run_equip_cmd-Toggles payload s = elim (Option-cases (get payload "equipIdx" >>= as_u64)) [
    | inl missing ↦ inl (missing, run_equip_cmd-equip_cmd payload s ∙ rw (equip_cmd, missing) refl)
    | inr (n, found) ↦ inr (n, found, run_equip_cmd-Outcome payload s n found)
  ]
