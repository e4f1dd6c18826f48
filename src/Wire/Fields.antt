-- ===== src/Wire/Fields.antt =====
-- The fields of a serialised message: no key stands twice, and `get` finds each of them.
use mathlib.Core.Option
use infinity_wasm_bridge.Prelude.{
  String, ◌≡◌, refl, Bool, true, Option, none, some, List, ◌∷◌, string_eq,
}
use infinity_wasm_bridge.Wire.Json.{Json, field, distinct_keys}
use infinity_wasm_bridge.Wire.Msg.{
  HelloPayload, CmdPayload, AckPayload, WireMsg, hello, ping, pong, cmd, ack, event, tag,
}
use infinity_wasm_bridge.Wire.Encode.{fields, serialize}

module _ (j : Json) where
  open j use {
    Value, null, bool, u64, string, object, get, is_null, as_bool, as_u64, as_str, to_string,
    from_str,
  }

  -- The fields that are written, the tag first.
  abbrev pub written : WireMsg Value → List (String × Value)
  written m = ("t", string (tag m)) ∷ fields j m

  distinct-written : (m : WireMsg Value) → distinct_keys (written m) ≡ true
  unfolding distinct_keys fields
  distinct-written (hello h) = distinct_hello h.meta
    where
      distinct_hello :
          (meta : Option Value) → distinct_keys (written (hello (record h { meta = meta }))) ≡ true
      distinct_hello none = refl
      distinct_hello (some x) = refl
  distinct-written (ping ts) = refl
  distinct-written (pong ts) = refl
  distinct-written (cmd c) = distinct_cmd c.name
    where
      distinct_cmd :
          (name : Option String) → distinct_keys (written (cmd (record c { name = name }))) ≡ true
      distinct_cmd none = refl
      distinct_cmd (some x) = refl
  distinct-written (ack a) = distinct_ack a.error a.response a.duplicate
    where
      distinct_ack :
          (error : Option String) (response : Option Value) (duplicate : Option Bool)
          → distinct_keys (
              written
                (ack (record a { error = error; response = response; duplicate = duplicate })))
            ≡ true
      distinct_ack none none none = refl
      distinct_ack none none (some d) = refl
      distinct_ack none (some r) none = refl
      distinct_ack none (some r) (some d) = refl
      distinct_ack (some e) none none = refl
      distinct_ack (some e) none (some d) = refl
      distinct_ack (some e) (some r) none = refl
      distinct_ack (some e) (some r) (some d) = refl
  distinct-written (event e) = refl

  pub get-serialize : (m : WireMsg Value) (k : String) → get (serialize j m) k ≡ field (written m) k
  unfolding serialize
  get-serialize m k = j.get-object (written m) k (distinct-written m)

  pub get_tag : (m : WireMsg Value) → get (serialize j m) "t" ≡ some (string (tag m))
  unfolding field
  get_tag m = get-serialize m "t"

  pub field_cmd :
      (c : CmdPayload Value) (name : Option String)
      → let fs = written (cmd (record c { name = name })) in
        (field fs "id" ≡ some (string c.id))
        × (field fs "name" ≡ Option.map string name)
        × (field fs "payload" ≡ some c.payload)
  unfolding field fields
  field_cmd c none = (refl, refl, refl)
  field_cmd c (some x) = (refl, refl, refl)

  pub field_hello :
      (h : HelloPayload Value) (meta : Option Value)
      → field (written (hello (record h { meta = meta }))) "meta" ≡ meta
  unfolding field fields
  field_hello h none = refl
  field_hello h (some x) = refl

  pub field_ack :
      (a : AckPayload Value) (e : Option String) (r : Option Value) (d : Option Bool)
      → let fs = written (ack (record a { error = e; response = r; duplicate = d })) in
        (field fs "error" ≡ Option.map string e)
        × (field fs "response" ≡ r)
        × (field fs "duplicate" ≡ Option.map bool d)
  unfolding field fields
  field_ack a none none none = (refl, refl, refl)
  field_ack a none none (some d) = (refl, refl, refl)
  field_ack a none (some r) none = (refl, refl, refl)
  field_ack a none (some r) (some d) = (refl, refl, refl)
  field_ack a (some e) none none = (refl, refl, refl)
  field_ack a (some e) none (some d) = (refl, refl, refl)
  field_ack a (some e) (some r) none = (refl, refl, refl)
  field_ack a (some e) (some r) (some d) = (refl, refl, refl)
