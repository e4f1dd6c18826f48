-- ===== src/Wire/Decoded.antt =====
-- What `from_json` promises of a message that it accepts.
use mathlib.Core.Path.{subst}
use text.Mathlib.TextEquality.{eq_iff}
use infinity_wasm_bridge.Prelude.{
  ℕ, ◌<◌, ◌^◌, String, ◌≡◌, refl, Option, none, some, ok, ◌==◌, string_eq, if◌then◌else◌, arith, ap,
  ◌∙◌, sym, Result-cases, Bool-cases, inl, inr,
}
use infinity_wasm_bridge.Wire.Json.{Json}
use infinity_wasm_bridge.Wire.Msg.{HelloPayload, WireMsg, hello, ping, pong, cmd, ack, event, tag}
use infinity_wasm_bridge.Wire.Encode.{to_json}
use infinity_wasm_bridge.Wire.Decode.{
  ◌>>=◌, as_u32, optional, required, read_hello, read_ts, read_cmd, read_ack, read_event, read_as,
  deserialize, from_json,
}
use infinity_wasm_bridge.Wire.RoundTrip.{drop_null, normal, Fits, HasWords, from_json-to_json}

pub >>=-eq-some {ℓ κ} :
    {A : Type ℓ} {B : Type κ} (m : Option A) (f : A → Option B) {b : B}
    → (m >>= f) ≡ some b
    → (a : A) × (m ≡ some a) × (f a ≡ some b)
>>=-eq-some none f h = cc
>>=-eq-some (some a) f h = (a, refl, h)

module _ (j : Json) where
  open j use {Value, Text, get, is_null, as_bool, as_u64, as_str, from_str}

  -- A message as `from_json` makes it under the tag `t`: its numbers fit their words, no field holds
  -- null, and it is of the variant that `t` names.
  abbrev IsRead : String → WireMsg Value → Type 0
  IsRead t m = HasWords j m × (normal j m ≡ m) × (t ≡ tag m)

  drop_null_read : (o r : Option Value) → optional j some o ≡ some r → drop_null j r ≡ r
  drop_null_read none r h = ground arith
  drop_null_read (some x) r h = ground arith

  as_u32-lt : (x : Value) (n : ℕ) → as_u32 j x ≡ some n → n < 2 ^ 32
  as_u32-lt x n h = ground arith

  optional-Fits :
      (w : ℕ) (read : Value → Option ℕ)
      → ((x : Value) (n : ℕ) → read x ≡ some n → n < 2 ^ w)
      → (o : Option Value) (r : Option ℕ) → optional j read o ≡ some r
      → Fits j w r
  optional-Fits w read lt o none h = tt
  optional-Fits w read lt none (some n) h = cc
  optional-Fits w read lt (some x) (some n) h = lt x n (ground arith)

  hello_parts :
      (o1 o2 o3 o4 : Option (Option String)) (o5 : Option (Option ℕ)) (o6 : Option (Option Value))
      (m : WireMsg Value)
      → (do
        client ← o1
        aircraft ← o2
        tail ← o3
        session ← o4
        v ← o5
        meta ← o6
        some (
            hello (record {
              client = client;
              aircraft = aircraft;
              tail = tail;
              session = session;
              v = v;
              meta = meta;
            })))
        ≡ some m
      → (h : HelloPayload Value) × (m ≡ hello h) × (o5 ≡ some h.v) × (o6 ≡ some h.meta)
  hello_parts o1 o2 o3 o4 o5 o6 (hello h) e = (h, refl, ground arith, ground arith)
  hello_parts o1 o2 o3 o4 o5 o6 m e = absurd (ground arith)

  read_hello-IsRead : (x : Value) (m : WireMsg Value) → read_hello j x ≡ some m → IsRead "hello" m
  unfolding read_hello tag
  read_hello-IsRead x m e =
      let text = λ (k : String). optional j as_str (get x k) in
      let (h, same, read_v, read_meta) =
        hello_parts (text "client") (text "aircraft") (text "tail") (text "session")
          (optional j (as_u32 j) (get x "v")) (optional j some (get x "meta")) m e in
      subst (IsRead "hello") (sym same) (
        optional-Fits 32 (as_u32 j) as_u32-lt (get x "v") h.v read_v,
        ap hello (ap (λ o. record h { meta = o }) (drop_null_read (get x "meta") h.meta read_meta)),
        refl,
      )

  read_ack-IsRead : (x : Value) (m : WireMsg Value) → read_ack j x ≡ some m → IsRead "ack" m
  unfolding read_ack tag
  read_ack-IsRead x (ack a) e =
      (tt, ground (arith, drop_null_read (get x "response") a.response), refl)
  read_ack-IsRead x m e = ground arith

  read_cmd-IsRead : (x : Value) (m : WireMsg Value) → read_cmd j x ≡ some m → IsRead "cmd" m
  unfolding read_cmd tag
  read_cmd-IsRead x (cmd c) e = (tt, refl, refl)
  read_cmd-IsRead x m e = ground arith

  read_event-IsRead : (x : Value) (m : WireMsg Value) → read_event j x ≡ some m → IsRead "event" m
  unfolding read_event tag
  read_event-IsRead x (event c) e = (tt, refl, refl)
  read_event-IsRead x m e = ground arith

  read_ts-IsRead_ping :
      (x : Value) (m : WireMsg Value) → read_ts j ping x ≡ some m → IsRead "ping" m
  unfolding read_ts tag
  read_ts-IsRead_ping x (ping ts) e =
      (optional-Fits 64 as_u64 j.as_u64-lt (get x "ts") ts (ground arith), refl, refl)
  read_ts-IsRead_ping x m e = ground arith

  read_ts-IsRead_pong :
      (x : Value) (m : WireMsg Value) → read_ts j pong x ≡ some m → IsRead "pong" m
  unfolding read_ts tag
  read_ts-IsRead_pong x (pong ts) e =
      (optional-Fits 64 as_u64 j.as_u64-lt (get x "ts") ts (ground arith), refl, refl)
  read_ts-IsRead_pong x m e = ground arith

  -- A test on the tag, and the reader that it guards.
  guarded-IsRead :
      (t name : String) (this other : Option (WireMsg Value)) (m : WireMsg Value)
      → (this ≡ some m → IsRead name m)
      → (other ≡ some m → IsRead t m)
      → (if t == name then this else other) ≡ some m
      → IsRead t m
  guarded-IsRead t name this other m here there e = elim (Bool-cases (t == name)) [
    | inl same ↦ subst (λ s. IsRead s m) (sym ((eq_iff t name).0 same)) (here (rw same at e))
    | inr differ ↦ there (rw differ at e)
  ]

  read_as-IsRead :
      (t : String) (x : Value) (m : WireMsg Value) → read_as j t x ≡ some m → IsRead t m
  unfolding read_as
  read_as-IsRead t x m = guarded-IsRead t "hello" _ _ m (read_hello-IsRead x m) (
      guarded-IsRead t "ping" _ _ m (read_ts-IsRead_ping x m) (
        guarded-IsRead t "pong" _ _ m (read_ts-IsRead_pong x m) (
          guarded-IsRead t "cmd" _ _ m (read_cmd-IsRead x m) (
            guarded-IsRead t "ack" _ _ m (read_ack-IsRead x m)
              (guarded-IsRead t "event" _ none m (read_event-IsRead x m) (λ e. cc))))))

  deserialize-IsRead :
      (x : Value) (m : WireMsg Value)
      → deserialize j x ≡ some m
      → (t : String) × (required j as_str (get x "t") ≡ some t) × IsRead t m
  unfolding deserialize
  deserialize-IsRead x m e =
      let (t, found, read) = >>=-eq-some (required j as_str (get x "t")) (λ t. read_as j t x) e in
      (t, found, read_as-IsRead t x m read)

  -- The variant of a parsed message is the one that the text's `t` field names: a text whose tag is
  -- absent, no string, or none of the six names is refused.
  pub from_json-tag :
      (text : Text) (m : WireMsg Value)
      → from_json j text ≡ some m
      → (x : Value) × (from_str text ≡ ok x) × (required j as_str (get x "t") ≡ some (tag m))
  unfolding from_json
  from_json-tag text m e = elim (Result-cases (from_str text)) [
    | inl (x, parsed) ↦
        let (t, found, read) = deserialize-IsRead x m (rw (parsed, from_json) at e) in
        (x, parsed, rw (← read.2) found)
    | inr (fault, refused) ↦ ground arith
  ]

  pub from_json-IsRead :
      (text : Text) (m : WireMsg Value)
      → from_json j text ≡ some m
      → HasWords j m × (normal j m ≡ m)
  unfolding from_json
  from_json-IsRead text m e = elim (Result-cases (from_str text)) [
    | inl (x, parsed) ↦
        let (_, _, read) = deserialize-IsRead x m (rw (parsed, from_json) at e) in (read.0, read.1)
    | inr (fault, refused) ↦ ground arith
  ]

  -- A message that was parsed is printed and parsed again without loss, so passing it on changes
  -- nothing.
  pub from_json-to_json-from_json :
      (text : Text) (m : WireMsg Value)
      → from_json j text ≡ some m
      → (again : Text) × (to_json j m ≡ ok again) × (from_json j again ≡ some m)
  from_json-to_json-from_json text m e =
      let (words, whole) = from_json-IsRead text m e in
      let (again, printed, parsed) = from_json-to_json j m words in
      (again, printed, parsed ∙ ap some whole)
