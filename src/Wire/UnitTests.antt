-- ===== src/Wire/UnitTests.antt =====
-- The tests of crates/infinity-bridge-wire/src/msg.rs, each as the proposition that it asserts, on the JSON
-- of Wire.Sample. Where a test looks into a printed text, the proposition looks into the value that the
-- text is read as.
use infinity_wasm_bridge.Prelude.{
  String, ◌≡◌, refl, true, false, Option, none, some, [], ◌∷◌, ok, err,
}
use infinity_wasm_bridge.Wire.Msg.{
  WireMsg, HelloPayload, CmdPayload, AckPayload, EventPayload, hello, ping, pong, cmd, ack, event,
  named_cmd, ok_ack, err_ack, duplicate_ack, new_event,
}
use infinity_wasm_bridge.Wire.Encode.{to_json, serialize}
use infinity_wasm_bridge.Wire.Decode.{from_json}
use infinity_wasm_bridge.Wire.Sample
use infinity_wasm_bridge.Wire.Sample.{
  Tree, Printed, nil, num, str, obj, entries, member, parse, trees,
}

-- `to_json().unwrap()`, then `from_json`.
abbrev reread : WireMsg Tree → Option (WireMsg Tree)
reread m = elim (to_json trees m) [ ok json ↦ from_json trees json | err e ↦ none ]

-- What stands under a key of the printed text.
abbrev printed_member : WireMsg Tree → String → Option Tree
printed_member m key = elim (to_json trees m) [
  | err e ↦ none
  | ok json ↦ elim (parse json) [ ok v ↦ member v key | err e ↦ none ]
]

abbrev key_value : Tree
key_value = obj (entries (("key", str "value") ∷ []))

abbrev RoundTripCmd : Type 0
RoundTripCmd =
    (c : CmdPayload Tree) × (reread (cmd (named_cmd "abc-123" "get_state" key_value))
      ≡ some (cmd c))
    × (c.id ≡ "abc-123")
    × (c.name ≡ some "get_state")
    × (c.payload ≡ key_value)

round_trip_cmd : RoundTripCmd
unfolding to_json from_json serialize
round_trip_cmd = (_, refl, refl, refl, refl)

abbrev RoundTripAckOk : Type 0
RoundTripAckOk =
    (a : AckPayload Tree) × (reread (ack (ok_ack "abc-123" (num 42))) ≡ some (ack a))
    × (a.is_ok ≡ true)
    × (a.response ≡ some (num 42))
    × (a.error ≡ none)

round_trip_ack_ok : RoundTripAckOk
unfolding to_json from_json serialize
round_trip_ack_ok = (_, refl, refl, refl, refl)

abbrev RoundTripAckErr : Type 0
RoundTripAckErr =
    (a : AckPayload Tree) × (reread (ack (err_ack "abc-123" "boom")) ≡ some (ack a))
    × (a.is_ok ≡ false)
    × (a.error ≡ some "boom")

round_trip_ack_err : RoundTripAckErr
unfolding to_json from_json serialize
round_trip_ack_err = (_, refl, refl, refl)

abbrev cruise : Tree
cruise = obj (entries (("phase", str "cruise") ∷ []))

abbrev RoundTripEvent : Type 0
RoundTripEvent =
    (e : EventPayload Tree) × (reread (event (new_event "state_changed" cruise)) ≡ some (event e))
    × (e.name ≡ "state_changed")
    × (e.payload ≡ cruise)

round_trip_event : RoundTripEvent
unfolding to_json from_json serialize
round_trip_event = (_, refl, refl, refl)

abbrev gauge_hello : HelloPayload Tree
gauge_hello = record {
  client = some "msfs-gauge";
  aircraft = some "DC-10";
  tail = none;
  session = some "12345";
  v = some 1;
  meta = none;
}

abbrev RoundTripHello : Type 0
RoundTripHello =
    (h : HelloPayload Tree) × (reread (hello gauge_hello) ≡ some (hello h))
    × (h.client ≡ some "msfs-gauge")
    × (h.v ≡ some 1)

round_trip_hello : RoundTripHello
unfolding to_json from_json serialize
round_trip_hello = (_, refl, refl, refl)

abbrev RoundTripPingPong : Type 0
RoundTripPingPong =
    (printed_member (ping (some 1234567890)) "t" ≡ some (str "ping"))
    × (reread (pong (some 1234567890)) ≡ some (pong (some 1234567890)))

round_trip_ping_pong : RoundTripPingPong
unfolding to_json from_json serialize
round_trip_ping_pong = (refl, refl)

abbrev DuplicateIsOk : Type 0
DuplicateIsOk =
    (a : AckPayload Tree) × (reread (ack (duplicate_ack "abc-123")) ≡ some (ack a))
    × (a.is_ok ≡ true)
    × (a.duplicate ≡ some true)

duplicate_is_ok : DuplicateIsOk
unfolding to_json from_json serialize
duplicate_is_ok = (_, refl, refl, refl)

abbrev banana : Printed
banana = Sample.text (obj (entries (("t", str "banana") ∷ ("stuff", num 42) ∷ [])))

abbrev UnknownTypeFails : Type 0
UnknownTypeFails = from_json trees banana ≡ none

unknown_type_fails : UnknownTypeFails
unfolding from_json
unknown_type_fails = refl

abbrev SkipSerializingNoneFields : Type 0
SkipSerializingNoneFields =
    (printed_member (ack (ok_ack "id" nil)) "error" ≡ none)
    × (printed_member (ack (ok_ack "id" nil)) "duplicate" ≡ none)

skip_serializing_none_fields : SkipSerializingNoneFields
unfolding to_json serialize
skip_serializing_none_fields = (refl, refl)
