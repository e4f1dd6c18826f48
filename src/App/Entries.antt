-- ===== src/App/Entries.antt =====
-- What examples/host-app/src/main.rs lists of the equipment of the fake gauge.
use infinity_wasm_bridge.Prelude.{
  ℕ, ◌<◌, ◌^◌, String, ◌≡◌, refl, Bool, true, false, some, [], ◌∷◌, arith,
}
use infinity_wasm_bridge.Wire.Json.{Json, field, distinct_keys}
use infinity_wasm_bridge.Wire.Decode.{◌>>=◌}
use infinity_wasm_bridge.Gauge.Fake.{mock_entry, mock_equipment_entries}
use infinity_wasm_bridge.App.Demo.{Listing, entry_line, listing, toggle_payload}

module _ (j : Json) where
  open j use {Value, array, object, u64}

  entry_line-mock_entry :
      (idx : ℕ) (category label : String) (available active : Bool)
      → idx < 2 ^ 64
      → entry_line j (mock_entry j idx category label available active)
        ≡ record { idx = idx; label = label; available = available; active = active }
  unfolding field distinct_keys
  entry_line-mock_entry idx category label available active fits =
      rw
        (
          j.get-object _ "idx" refl,
          j.get-object _ "label" refl,
          j.get-object _ "available" refl,
          j.get-object _ "active" refl,
          j.as_u64-u64 idx fits,
          j.as_str-string label,
          j.as_bool-bool available,
          j.as_bool-bool active,
        )
        refl

  -- What the application lists of the gauge's equipment.
  abbrev pub mock_listing : Listing
  mock_listing = record {
    count = 10;
    lines =
        record { idx = 0; label = "AINS-70"; available = true; active = true }
        ∷ record { idx = 1; label = "CIV-A"; available = true; active = false }
        ∷ record { idx = 2; label = "INS-61B"; available = true; active = false }
        ∷ [];
    more = 7;
  }

  pub listing-mock :
      listing j (object (("entries", array (mock_equipment_entries j)) ∷ [])) ≡ mock_listing
  unfolding listing field distinct_keys
  listing-mock =
      rw
        (
          j.get-object _ "entries" refl,
          j.as_array-array (mock_equipment_entries j),
          entry_line-mock_entry 0 "Navigation Systems" "AINS-70" true true (omega arith),
          entry_line-mock_entry 1 "Navigation Systems" "CIV-A" true false (omega arith),
          entry_line-mock_entry 2 "Navigation Systems" "INS-61B" true false (omega arith),
        )
        refl

  -- The response to the toggle of the entry 1.
  abbrev pub toggled : Value
  toggled = object (("entries", array (mock_equipment_entries j)) ∷ ("toggled", u64 1) ∷ [])

  pub toggle_payload-idx : (j.get (toggle_payload j) "equipIdx" >>= j.as_u64) ≡ some 1
  unfolding field distinct_keys
  toggle_payload-idx = rw (j.get-object _ "equipIdx" refl, j.as_u64-u64 1 (omega arith)) refl
