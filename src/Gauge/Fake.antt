-- ===== src/Gauge/Fake.antt =====
-- examples/host-app/src/fake_gauge.rs: its greeting, its command handler and its reader. What a match
-- arm prints to the console is left out.
use Prim.Native.String
use infinity_wasm_bridge.Prelude.{
  ℕ, String, Bool, true, false, Option, none, some, List, [], ◌∷◌, ◌++◌, ok, err, unwrap_or,
  if◌then◌else◌, ◌==◌, string_eq,
}
use infinity_wasm_bridge.Wire.Json.{Json}
use infinity_wasm_bridge.Wire.Msg.{
  WireMsg, HelloPayload, hello, ping, pong, cmd, ack, ok_ack, err_ack,
}
use infinity_wasm_bridge.Wire.Encode.{to_json}
use infinity_wasm_bridge.Wire.Decode.{◌>>=◌, from_json}

-- `Message` of tungstenite: the frames that the reader tells apart.
pub data Frame (Text : Type 0) : Type 0 where
  text : Text → Frame Text
  close : Frame Text
  other : Frame Text

module _ (j : Json) where
  open j use {Value, Text, get, as_u64, bool, u64, string, array, object}

  -- `session` is the text `test-` with the time in seconds.
  abbrev pub greeting_payload : String → HelloPayload Value
  greeting_payload session = record {
    client = some "fake-gauge";
    aircraft = some "DC-10-30";
    tail = some "N1819U";
    session = some session;
    v = some 1;
    meta = none;
  }

  abbrev pub greeting : String → WireMsg Value
  greeting session = hello (greeting_payload session)

  abbrev pub mock_entry : ℕ → String → String → Bool → Bool → Value
  mock_entry idx category label available active = object (
      ("idx", u64 idx)
      ∷ ("category", string category)
      ∷ ("label", string label)
      ∷ ("available", bool available)
      ∷ ("active", bool active)
      ∷ [])

  abbrev pub mock_equipment_entries : List Value
  mock_equipment_entries =
      mock_entry 0 "Navigation Systems" "AINS-70" true true
      ∷ mock_entry 1 "Navigation Systems" "CIV-A" true false
      ∷ mock_entry 2 "Navigation Systems" "INS-61B" true false
      ∷ mock_entry 7 "Fuel Gauges" "Digital" true false
      ∷ mock_entry 8 "Fuel Gauges" "Analog" true true
      ∷ mock_entry 9 "Range Options" "Normal" true true
      ∷ mock_entry 10 "Range Options" "Extended Range" true false
      ∷ mock_entry 40 "Engine Displays" "Tapes" true false
      ∷ mock_entry 41 "Engine Displays" "Dials" true true
      ∷ mock_entry 42 "Engine Displays" "Digital" false false
      ∷ []

  -- `none` where the gauge does not respond.
  unfoldable pub handle_command : String → Option String → Value → Option (WireMsg Value)
  handle_command id none payload = some (ack (ok_ack id payload))
  handle_command id (some name) payload =
      if name == "equip_query"
      then some (ack (ok_ack id (object (("entries", array mock_equipment_entries) ∷ []))))
      else if name == "equip_cmd"
      then (let idx = unwrap_or (get payload "equipIdx" >>= as_u64) 0 in
          some (
            ack (
              ok_ack id
                (object (("entries", array mock_equipment_entries) ∷ ("toggled", u64 idx) ∷ [])))))
      else if name == "slow_command"
      then none
      else some (ack (err_ack id (String.◌++◌ "UNKNOWN_COMMAND: " name)))

  -- A message that does not print is dropped.
  abbrev pub sent : Option (WireMsg Value) → List Text
  sent none = []
  sent (some m) = elim (to_json j m) [ ok t ↦ t ∷ [] | err e ↦ [] ]

  -- The match of the reader: what it puts on `out_tx`.
  unfoldable pub reply : WireMsg Value → List Text
  unfolding handle_command
  reply (ping ts) = sent (some (pong ts))
  reply (cmd c) = sent (handle_command c.id c.name c.payload)
  reply m = []

  -- The reader over the frames that arrive; `none` is a failure of the stream.
  unfoldable pub read_frames : List (Option (Frame Text)) → List Text
  unfolding reply
  read_frames [] = []
  read_frames (none ∷ frames) = []
  read_frames (some close ∷ frames) = []
  read_frames (some other ∷ frames) = read_frames frames
  read_frames (some (text raw) ∷ frames) = elim (from_json j raw) [
    | none ↦ read_frames frames
    | some m ↦ reply m ++ read_frames frames
  ]
