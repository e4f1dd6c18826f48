-- ===== src/Wire/Decode.antt =====
-- `Deserialize` of `WireMsg`, as the attributes in crates/infinity-bridge-wire/src/msg.rs order it
-- (`tag = "t"`, `rename`, `default`), and `WireMsg::from_json`. A refusal is `none`: no caller
-- looks at its text.
use mathlib.Core.Option
use infinity_wasm_bridge.Prelude.{
  ℕ, ◌^◌, String, Option, none, some, ok, err, ◌==◌, string_eq, if◌then◌else◌, ltb,
}
use infinity_wasm_bridge.Wire.Json.{Json}
use infinity_wasm_bridge.Wire.Msg.{WireMsg, hello, ping, pong, cmd, ack, event}

infixl 5 ◌>>=◌
abbrev pub ◌>>=◌ {ℓ κ} : {A : Type ℓ} {B : Type κ} → Option A → (A → Option B) → Option B
none >>= k = none
some a >>= k = k a

-- A `u32`.
abbrev pub fits_u32 : ℕ → Option ℕ
fits_u32 n = if ltb n (2 ^ 32) then some n else none

module _ (j : Json) where
  open j use {Value, Text, get, is_null, as_bool, as_u64, as_str, from_str}

  -- A required field.
  abbrev pub required {ℓ} : {A : Type ℓ} → (Value → Option A) → Option Value → Option A
  required read none = none
  required read (some x) = read x

  -- A field of type `Option` under `default`: absent and null are `None`.
  abbrev pub optional {ℓ} : {A : Type ℓ} → (Value → Option A) → Option Value → Option (Option A)
  optional read none = some none
  optional read (some x) = if is_null x then some none else Option.map some (read x)

  abbrev pub as_u32 : Value → Option ℕ
  as_u32 x = as_u64 x >>= fits_u32

  unfoldable pub read_hello : Value → Option (WireMsg Value)
  read_hello x = do
    client ← optional as_str (get x "client")
    aircraft ← optional as_str (get x "aircraft")
    tail ← optional as_str (get x "tail")
    session ← optional as_str (get x "session")
    v ← optional as_u32 (get x "v")
    meta ← optional some (get x "meta")
    some (
        hello (record {
          client = client;
          aircraft = aircraft;
          tail = tail;
          session = session;
          v = v;
          meta = meta;
        }))

  unfoldable pub read_ts : (Option ℕ → WireMsg Value) → Value → Option (WireMsg Value)
  read_ts make x = Option.map make (optional as_u64 (get x "ts"))

  unfoldable pub read_cmd : Value → Option (WireMsg Value)
  read_cmd x = do
    id ← required as_str (get x "id")
    name ← optional as_str (get x "name")
    payload ← get x "payload"
    some (cmd (record { id = id; name = name; payload = payload }))

  unfoldable pub read_ack : Value → Option (WireMsg Value)
  read_ack x = do
    id ← required as_str (get x "id")
    is_ok ← required as_bool (get x "ok")
    error ← optional as_str (get x "error")
    response ← optional some (get x "response")
    duplicate ← optional as_bool (get x "duplicate")
    some (
        ack (record {
          id = id;
          is_ok = is_ok;
          error = error;
          response = response;
          duplicate = duplicate;
        }))

  unfoldable pub read_event : Value → Option (WireMsg Value)
  read_event x = do
    name ← required as_str (get x "name")
    payload ← get x "data"
    some (event (record { name = name; payload = payload }))

  -- The variant that a tag names.
  unfoldable pub read_as : String → Value → Option (WireMsg Value)
  unfolding read_hello read_ts read_cmd read_ack read_event
  read_as t x =
      if t == "hello"
      then read_hello x
      else if t == "ping"
      then read_ts ping x
      else if t == "pong"
      then read_ts pong x
      else if t == "cmd"
      then read_cmd x
      else if t == "ack"
      then read_ack x
      else if t == "event"
      then read_event x
      else none

  unfoldable pub deserialize : Value → Option (WireMsg Value)
  unfolding read_as
  deserialize x = do t ← required as_str (get x "t"); read_as t x

  -- `WireMsg::from_json`.
  unfoldable pub from_json : Text → Option (WireMsg Value)
  unfolding deserialize
  from_json text = elim (from_str text) [ ok x ↦ deserialize x | err e ↦ none ]
