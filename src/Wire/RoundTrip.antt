-- ===== src/Wire/RoundTrip.antt =====
-- What a message becomes on its way through `to_json` and `from_json`.
use mathlib.Core.Option
use infinity_wasm_bridge.Prelude.{
  ℕ, ◌<◌, ◌^◌, String, ◌≡◌, refl, Bool, Option, none, some, ok, string_eq, if◌then◌else◌, arith,
}
use infinity_wasm_bridge.Wire.Json.{Json, field}
use infinity_wasm_bridge.Wire.Msg.{
  HelloPayload, CmdPayload, AckPayload, EventPayload, WireMsg, hello, ping, pong, cmd, ack, event,
  tag,
}
use infinity_wasm_bridge.Wire.Fields.{
  written, get-serialize, get_tag, field_cmd, field_hello, field_ack,
}
use infinity_wasm_bridge.Wire.Encode.{or_null, fields, serialize, to_json}
use infinity_wasm_bridge.Wire.Decode.{
  as_u32, optional, read_hello, read_ts, read_cmd, read_ack, read_event, read_as, deserialize,
  from_json,
}

module _ (j : Json) where
  open j use {
    Value, Text, null, bool, u64, string, object, get, is_null, as_bool, as_u64, as_str, to_string,
    from_str,
  }

  -- A field that holds null is read as an absent one.
  abbrev pub drop_null : Option Value → Option Value
  drop_null none = none
  drop_null (some x) = if is_null x then none else some x

  -- What is left of a message: `meta` and `response` do not tell null from absence.
  abbrev pub normal : WireMsg Value → WireMsg Value
  normal (hello h) = hello (record h { meta = drop_null h.meta })
  normal (ping ts) = ping ts
  normal (pong ts) = pong ts
  normal (cmd c) = cmd c
  normal (ack a) = ack (record a { response = drop_null a.response })
  normal (event e) = event e

  -- The number, if there is one, fits a word of `w` bits.
  abbrev pub Fits : ℕ → Option ℕ → Type 0
  Fits w none = Unit
  Fits w (some n) = n < 2 ^ w

  -- The protocol version is a `u32` and a timestamp a `u64`.
  abbrev pub HasWords : WireMsg Value → Type 0
  HasWords (hello h) = Fits 32 h.v
  HasWords (ping ts) = Fits 64 ts
  HasWords (pong ts) = Fits 64 ts
  HasWords _ = Unit

  pub optional_text : (o : Option String) → optional j as_str (Option.map string o) ≡ some o
  optional_text none = refl
  optional_text (some s) = rw (j.is_null-string s, j.as_str-string s)

  pub optional_text_or_null :
      (o : Option String) → optional j as_str (some (or_null j (Option.map string o))) ≡ some o
  optional_text_or_null none = rw j.is_null-null
  optional_text_or_null (some s) = rw (j.is_null-string s, j.as_str-string s)

  optional_u64_or_null :
      (o : Option ℕ) → Fits 64 o → optional j as_u64 (some (or_null j (Option.map u64 o))) ≡ some o
  optional_u64_or_null none h = rw j.is_null-null
  optional_u64_or_null (some n) h = rw (j.is_null-u64 n, j.as_u64-u64 n h)

  optional_bool : (o : Option Bool) → optional j as_bool (Option.map bool o) ≡ some o
  optional_bool none = refl
  optional_bool (some b) = rw (j.is_null-bool b, j.as_bool-bool b)

  pub optional_u32_or_null :
      (o : Option ℕ)
      → Fits 32 o
      → optional j (as_u32 j) (some (or_null j (Option.map u64 o))) ≡ some o
  optional_u32_or_null none h = rw j.is_null-null
  optional_u32_or_null (some n) h =
      rw (j.is_null-u64 n, j.as_u64-u64 n (omega arith)) (ground arith)

  pub optional_value : (o : Option Value) → optional j some o ≡ some (drop_null o)
  optional_value none = refl
  optional_value (some x) = ground arith

  read_cmd-serialize : (c : CmdPayload Value) → read_cmd j (serialize j (cmd c)) ≡ some (cmd c)
  unfolding read_cmd
  read_cmd-serialize c =
      let m = cmd c in
      let f = field_cmd j c c.name in
      rw (
        get-serialize j m "id",
        get-serialize j m "name",
        get-serialize j m "payload",
        f.0,
        f.1,
        f.2,
        j.as_str-string c.id,
        optional_text c.name,
      )

  read_hello-serialize :
      (h : HelloPayload Value)
      → HasWords (hello h)
      → read_hello j (serialize j (hello h)) ≡ some (normal (hello h))
  unfolding read_hello field fields
  read_hello-serialize h v =
      let m = hello h in
      rw (
        get-serialize j m "client",
        get-serialize j m "aircraft",
        get-serialize j m "tail",
        get-serialize j m "session",
        get-serialize j m "v",
        get-serialize j m "meta",
        optional_text_or_null h.client,
        optional_text_or_null h.aircraft,
        optional_text_or_null h.tail,
        optional_text_or_null h.session,
        optional_u32_or_null h.v v,
        field_hello j h h.meta,
        optional_value h.meta,
      )

  read_ts-serialize :
      (make : Option ℕ → WireMsg Value) (ts : Option ℕ) (m : WireMsg Value)
      → Fits 64 ts
      → field (written j m) "ts" ≡ some (or_null j (Option.map u64 ts))
      → read_ts j make (serialize j m) ≡ some (make ts)
  unfolding read_ts
  read_ts-serialize make ts m v e = rw (get-serialize j m "ts", e, optional_u64_or_null ts v)

  read_ack-serialize :
      (a : AckPayload Value) → read_ack j (serialize j (ack a)) ≡ some (normal (ack a))
  unfolding read_ack field fields
  read_ack-serialize a =
      let m = ack a in
      let f = field_ack j a a.error a.response a.duplicate in
      rw (
        get-serialize j m "id",
        get-serialize j m "ok",
        get-serialize j m "error",
        get-serialize j m "response",
        get-serialize j m "duplicate",
        f.0,
        f.1,
        f.2,
        j.as_str-string a.id,
        j.as_bool-bool a.is_ok,
        optional_text a.error,
        optional_value a.response,
        optional_bool a.duplicate,
      )

  read_event-serialize :
      (e : EventPayload Value) → read_event j (serialize j (event e)) ≡ some (event e)
  unfolding read_event field fields
  read_event-serialize e =
      let m = event e in
      rw (get-serialize j m "name", get-serialize j m "data", j.as_str-string e.name)

  read_as-serialize :
      (m : WireMsg Value) → HasWords m → read_as j (tag m) (serialize j m) ≡ some (normal m)
  unfolding read_as tag field fields
  read_as-serialize (hello h) v = read_hello-serialize h v
  read_as-serialize (ping ts) v = read_ts-serialize ping ts (ping ts) v refl
  read_as-serialize (pong ts) v = read_ts-serialize pong ts (pong ts) v refl
  read_as-serialize (cmd c) v = read_cmd-serialize c
  read_as-serialize (ack a) v = read_ack-serialize a
  read_as-serialize (event e) v = read_event-serialize e

  pub deserialize-serialize :
      (m : WireMsg Value) → HasWords m → deserialize j (serialize j m) ≡ some (normal m)
  unfolding deserialize
  deserialize-serialize m v = rw (get_tag j m, j.as_str-string (tag m)) (read_as-serialize m v)

  -- Printing a message never fails, and where its numbers fit their `u32` or `u64`, parsing the
  -- text gives the message back, but for a `meta` or `response` that holds null, which comes back
  -- absent.
  pub from_json-to_json :
      (m : WireMsg Value)
      → HasWords m
      → (text : Text) × (to_json j m ≡ ok text) × (from_json j text ≡ some (normal m))
  unfolding to_json from_json
  from_json-to_json m v =
      let (text, printed, parsed) = j.prints (serialize j m) in
      (text, printed, rw (parsed, from_json) (deserialize-serialize m v))
