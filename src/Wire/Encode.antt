-- ===== src/Wire/Encode.antt =====
-- `Serialize` of `WireMsg`, as the attributes in crates/infinity-bridge-wire/src/msg.rs order it
-- (`tag = "t"`, `rename`, `skip_serializing_if`), and `WireMsg::to_json`.
use mathlib.Core.Option
use infinity_wasm_bridge.Prelude.{String, Option, none, some, List, [], ◌∷◌, ◌++◌, Result}
use infinity_wasm_bridge.Wire.Json.{Json}
use infinity_wasm_bridge.Wire.Msg.{WireMsg, hello, ping, pong, cmd, ack, event, tag}

module _ (j : Json) where
  open j use {Value, Text, null, bool, u64, string, object, to_string}

  -- An `Option` field that is always written.
  abbrev pub or_null : Option Value → Value
  or_null none = null
  or_null (some x) = x

  -- An `Option` field under `skip_serializing_if = "Option::is_none"`.
  abbrev pub unless_none : String → Option Value → List (String × Value)
  unless_none k none = []
  unless_none k (some x) = (k, x) ∷ []

  -- The fields of each message, in the order of their declaration.
  unfoldable pub fields : WireMsg Value → List (String × Value)
  fields (hello h) =
      ("client", or_null (Option.map string h.client))
      ∷ ("aircraft", or_null (Option.map string h.aircraft))
      ∷ ("tail", or_null (Option.map string h.tail))
      ∷ ("session", or_null (Option.map string h.session))
      ∷ ("v", or_null (Option.map u64 h.v))
      ∷ unless_none "meta" h.meta
  fields (ping ts) = ("ts", or_null (Option.map u64 ts)) ∷ []
  fields (pong ts) = ("ts", or_null (Option.map u64 ts)) ∷ []
  fields (cmd c) =
      ("id", string c.id)
      ∷ (unless_none "name" (Option.map string c.name) ++ ("payload", c.payload) ∷ [])
  fields (ack a) =
      ("id", string a.id)
      ∷ ("ok", bool a.is_ok)
      ∷ (unless_none "error" (Option.map string a.error)
          ++ (unless_none "response" a.response
              ++ unless_none "duplicate" (Option.map bool a.duplicate)))
  fields (event e) = ("name", string e.name) ∷ ("data", e.payload) ∷ []

  unfoldable pub serialize : WireMsg Value → Value
  unfolding tag fields
  serialize m = object (("t", string (tag m)) ∷ fields m)

  -- `WireMsg::to_json`.
  unfoldable pub to_json : WireMsg Value → Result String Text
  to_json m = to_string (serialize m)
