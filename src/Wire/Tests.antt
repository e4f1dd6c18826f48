-- ===== src/Wire/Tests.antt =====
-- The messages at concrete inputs.
use infinity_wasm_bridge.Prelude.{◌≡◌, refl, none, some, [], ◌∷◌, ok, arith}
use infinity_wasm_bridge.Wire.Msg.{WireMsg, hello, cmd, ack, ok_ack, tag}
use infinity_wasm_bridge.Wire.Encode.{to_json}
use infinity_wasm_bridge.Wire.Decode.{from_json, required}
use infinity_wasm_bridge.Wire.RoundTrip.{normal, from_json-to_json}
use infinity_wasm_bridge.Wire.Decoded.{from_json-tag, from_json-to_json-from_json}
use infinity_wasm_bridge.Wire.Sample.{
  Tree, Printed, nil, num, str, obj, entries, text, trees, parse, member, to_str,
}

abbrev greeting : WireMsg Tree
greeting = hello (record {
  client = some "msfs-gauge";
  aircraft = some "DC-10";
  tail = none;
  session = some "12345";
  v = some 1;
  meta = some nil;
})

abbrev null_ack : WireMsg Tree
null_ack = ack (ok_ack "abc-123" nil)

-- `null` in `response` comes back as an absent field.
from_json-to_json_example :
    (t : Printed) × (to_json trees null_ack ≡ ok t)
    × (from_json trees t ≡ some (normal trees null_ack))
from_json-to_json_example = from_json-to_json trees null_ack tt

hello_round_trip :
    (t : Printed) × (to_json trees greeting ≡ ok t)
    × (from_json trees t ≡ some (normal trees greeting))
hello_round_trip = from_json-to_json trees greeting (omega arith)

abbrev cmd_text : Printed
cmd_text = text (
    obj (
      entries (("t", str "cmd") ∷ ("id", str "abc-123") ∷ ("name", nil) ∷ ("payload", num 7) ∷ [])))

abbrev cmd_read : WireMsg Tree
cmd_read = cmd (record { id = "abc-123"; name = none; payload = num 7 })

cmd_text_read : from_json trees cmd_text ≡ some cmd_read
unfolding from_json
cmd_text_read = refl

from_json-tag_example :
    (x : Tree) × (parse cmd_text ≡ ok x)
    × (required trees to_str (member x "t") ≡ some (tag cmd_read))
from_json-tag_example = from_json-tag trees cmd_text cmd_read cmd_text_read

from_json-to_json-from_json_example :
    (again : Printed) × (to_json trees cmd_read ≡ ok again)
    × (from_json trees again ≡ some cmd_read)
from_json-to_json-from_json_example =
    from_json-to_json-from_json trees cmd_text cmd_read cmd_text_read

unknown_type_fails :
    from_json trees (text (obj (entries (("t", str "banana") ∷ ("stuff", num 42) ∷ [])))) ≡ none
unfolding from_json
unknown_type_fails = refl
