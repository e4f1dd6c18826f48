-- ===== src/Relay/Greeted.antt =====
-- What the relay sends when its socket opens (ts/infinity-bridge-relay/src/relay.ts), and what the host
-- (crates/infinity-bridge-host/src/server.rs) makes of it.
use mathlib.Core.Option
use infinity_wasm_bridge.Prelude.{
  ℕ, ◌<◌, ◌^◌, String, ◌≡◌, refl, ap, ◌∙◌, Bool, true, Option, none, some, [], ◌∷◌, ◌++◌, unwrap_or,
  string_eq, nat_eq, nat_beq_iff, ok,
}
use infinity_wasm_bridge.Prelude.Decimal.{show_u64}
use infinity_wasm_bridge.Prelude.HashMap
use infinity_wasm_bridge.Wire.Json.{Json, field, distinct_keys}
use infinity_wasm_bridge.Wire.Msg.{HelloPayload, hello, event, new_event, ready_event}
use infinity_wasm_bridge.Wire.Encode.{unless_none, serialize, to_json}
use infinity_wasm_bridge.Wire.Decode.{read_hello, read_as, deserialize, from_json}
use infinity_wasm_bridge.Wire.RoundTrip.{
  drop_null, optional_text, optional_text_or_null, optional_u32_or_null, optional_value,
  from_json-to_json,
}
use infinity_wasm_bridge.Host.Runtime.{Runtime}
use infinity_wasm_bridge.Host.Hub.{Client, Hub}
use infinity_wasm_bridge.Host.Server.{ready_of, handle_text}
use infinity_wasm_bridge.Host.Reader.{get-handle_text}
use infinity_wasm_bridge.Relay.State.{Relay}
use infinity_wasm_bridge.Relay.Bridge.{ready_value, send_value, send_ready, ws_send}
use infinity_wasm_bridge.Relay.Life.{RelayConfig, hello_value, on_open}

module _ (j : Json) where
  open j use {Value, Text, get, as_str, string, u64, bool, object}

  -- The greeting of a relay, which leaves out what is not configured.
  abbrev pub relay_hello : RelayConfig Value → ℕ → HelloPayload Value
  relay_hello config now = record {
    client = some (unwrap_or config.client "msfs-gauge");
    aircraft = config.aircraft;
    tail = config.tail;
    session = some (unwrap_or config.session (show_u64 now));
    v = some (unwrap_or config.protocol_version 1);
    meta = drop_null j config.meta;
  }

  hello_fields :
      (client session v : Value) (aircraft tail meta : Option Value)
      → let fs =
          ("t", string "hello")
          ∷ ("client", client)
          ∷ (unless_none j "aircraft" aircraft
              ++ (unless_none j "tail" tail
                  ++ (("session", session) ∷ ("v", v) ∷ unless_none j "meta" meta))) in
        (distinct_keys fs ≡ true)
        × (field fs "t" ≡ some (string "hello"))
        × (field fs "client" ≡ some client)
        × (field fs "aircraft" ≡ aircraft)
        × (field fs "tail" ≡ tail)
        × (field fs "session" ≡ some session)
        × (field fs "v" ≡ some v)
        × (field fs "meta" ≡ meta)
  unfolding field distinct_keys
  hello_fields c s v none none none = (refl, refl, refl, refl, refl, refl, refl, refl)
  hello_fields c s v none none (some m) = (refl, refl, refl, refl, refl, refl, refl, refl)
  hello_fields c s v none (some t) none = (refl, refl, refl, refl, refl, refl, refl, refl)
  hello_fields c s v none (some t) (some m) = (refl, refl, refl, refl, refl, refl, refl, refl)
  hello_fields c s v (some a) none none = (refl, refl, refl, refl, refl, refl, refl, refl)
  hello_fields c s v (some a) none (some m) = (refl, refl, refl, refl, refl, refl, refl, refl)
  hello_fields c s v (some a) (some t) none = (refl, refl, refl, refl, refl, refl, refl, refl)
  hello_fields c s v (some a) (some t) (some m) = (refl, refl, refl, refl, refl, refl, refl, refl)

  deserialize-hello_value :
      (config : RelayConfig Value) (now : ℕ)
      → unwrap_or config.protocol_version 1 < 2 ^ 32
      → deserialize j (hello_value j config now) ≡ some (hello (relay_hello config now))
  unfolding deserialize read_as read_hello
  deserialize-hello_value config now small =
      let client = unwrap_or config.client "msfs-gauge" in
      let session = unwrap_or config.session (show_u64 now) in
      let v = unwrap_or config.protocol_version 1 in
      let aircraft : Option Value = Option.map string config.aircraft in
      let tail : Option Value = Option.map string config.tail in
      let (distinct, t, fc, fa, ft, fs, fv, fm) =
        hello_fields (string client) (string session) (u64 v) aircraft tail config.meta in
      let found = λ (k : String). j.get-object _ k distinct in
      rw (
        found "t" ∙ t,
        j.as_str-string "hello",
        found "client" ∙ fc,
        found "aircraft" ∙ fa,
        found "tail" ∙ ft,
        found "session" ∙ fs,
        found "v" ∙ fv,
        found "meta" ∙ fm,
        optional_text_or_null j (some client),
        optional_text j config.aircraft,
        optional_text j config.tail,
        optional_text_or_null j (some session),
        optional_u32_or_null j (some v) small,
        optional_value j config.meta,
      )

  abbrev pub readiness : Bool → Value
  readiness bound = object (("ready", bool bound) ∷ [])

  ready_value-event :
      (bound : Bool)
      → ready_value j bound ≡ serialize j (event (new_event ready_event (readiness bound)))
  unfolding serialize
  ready_value-event bound = refl

  send_value-open :
      (v : Value) (text : Text) (r : Relay j)
      → j.to_string v ≡ ok text
      → r.is_open ≡ true
      → send_value j v r ≡ record r { to_host = r.to_host ++ text ∷ [] }
  unfolding send_value ws_send
  send_value-open v text r printed opened = rw (send_value, printed, ws_send, opened) refl

  -- The two texts that a relay sends when its socket opens.
  pub record Sends (config : RelayConfig Value) (now : ℕ) (r : Relay j) : Type 0 where
    pub first : Text
    pub second : Text
    pub greets : from_json j first ≡ some (hello (relay_hello config now))
    pub tells : from_json j second ≡ some (event (new_event ready_event (readiness r.is_bound)))
    pub sent :
        on_open j config now r
        ≡ record r { is_open = true; to_host = (r.to_host ++ first ∷ []) ++ second ∷ [] }

  pub on_open-Sends :
      (config : RelayConfig Value) (now : ℕ) (r : Relay j)
      → unwrap_or config.protocol_version 1 < 2 ^ 32
      → Sends config now r
  unfolding on_open send_ready send_value ws_send from_json to_json
  on_open-Sends config now r small =
      let (first, printed, parsed) = j.prints (hello_value j config now) in
      let told = event (new_event ready_event (readiness r.is_bound)) in
      let (second, printed', reads) = from_json-to_json j told tt in
      record {
        first = first;
        second = second;
        greets = rw (parsed, from_json) (deserialize-hello_value config now small);
        tells = reads;
        sent =
            ap (send_ready j) (
              send_value-open (hello_value j config now) first (record r { is_open = true }) printed
                refl)
            ∙ send_value-open (ready_value j r.is_bound) second
                (record r { is_open = true; to_host = r.to_host ++ first ∷ [] })
                (ap j.to_string (ready_value-event r.is_bound) ∙ printed') refl;
      }

  module _ (hr : Runtime j) (client_id : ℕ) where
    ready_of-readiness : (bound : Bool) → ready_of j hr client_id (readiness bound) ≡ bound
    unfolding field distinct_keys
    ready_of-readiness bound =
        rw (j.get-object (("ready", bool bound) ∷ []) "ready" refl, j.as_bool-bool bound)

    -- When the socket of a relay opens, the relay sends two texts, whatever it has sent before. Once the
    -- reader of the host's connection has heard both, the host knows of its client the greeting that
    -- the relay is configured with, and counts it as ready exactly if the relay's CommBus listener is
    -- bound; the client keeps its channel. The protocol version fits 32 bits, and a `meta` that holds
    -- null comes over as absent.
    pub on_open-handle_text :
        (config : RelayConfig Value) (opened_at first_at second_at : ℕ) (r : Relay j) (h : Hub j hr)
        (c : Client j hr)
        → unwrap_or config.protocol_version 1 < 2 ^ 32
        → HashMap.get client_id h.clients ≡ some c
        → (first second : Text) × ((on_open j config opened_at r).to_host
            ≡ (r.to_host ++ first ∷ []) ++ second ∷ [])
          × (HashMap.get client_id
                (handle_text j hr client_id second_at second
                  (handle_text j hr client_id first_at first h)).clients
              ≡ some (record c {
                greeting = some (relay_hello config opened_at);
                last_seen = second_at;
                ready = r.is_bound;
              }))
    on_open-handle_text config opened_at first_at second_at r h c small found =
        let s = on_open-Sends config opened_at r small in
        let greeted = handle_text j hr client_id first_at s.first h in
        let itself = (nat_beq_iff client_id client_id).1 refl in
        let known = get-handle_text j hr client_id first_at s.first h client_id in
        let told = get-handle_text j hr client_id second_at s.second greeted client_id in
        (
          s.first,
          s.second,
          rw s.sent refl,
          told ∙ rw (known, itself, found, s.greets, s.tells, ready_of-readiness r.is_bound),
        )
