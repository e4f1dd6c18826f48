-- ===== src/App/Demo.antt =====
-- examples/host-app/src/main.rs: its configuration, its demonstrations, and what it reports of their
-- results. Its task that prints the events is App.Listener. Banners, the task that prints the
-- connection status and the end by Ctrl+C are left out. A timeout counts milliseconds here.
use Prim.Native.String
use infinity_wasm_bridge.Prelude.{
  ℕ, zero, suc, ◌*◌, ◌-◌, String, Bool, false, Option, none, some, List, [], ◌∷◌, map, length,
  Result, ok, err, unwrap_or, if◌then◌else◌, string_eq,
}
use infinity_wasm_bridge.Prelude.Decimal.{show_u64}
use infinity_wasm_bridge.Wire.Json.{Json}
use infinity_wasm_bridge.Wire.Error
use infinity_wasm_bridge.Wire.Error.{ErrorKind, BridgeError, is_kind}
use infinity_wasm_bridge.Wire.Msg.{HelloPayload}
use infinity_wasm_bridge.Wire.Decode.{◌>>=◌}
use infinity_wasm_bridge.Host.Runtime.{Runtime}
use infinity_wasm_bridge.Host.Hub.{Hub, ClientInfo}
use infinity_wasm_bridge.Host.Steps.{Op, run}
use infinity_wasm_bridge.Host.Server.{ServerConfig}
use infinity_wasm_bridge.Host.BridgeServer

abbrev pub config : ServerConfig
config = record {
  bind_addr = "127.0.0.1:9876";
  ws_path = "/bridge";
  event_capacity = 256;
  ping_interval = 5;
  ping_timeout = 15;
}

abbrev pub from_secs : ℕ → ℕ
from_secs n = n * 1000

-- The report of a command that is to fail with one kind of error: that error's message, success,
-- or another error.
pub data Report : Type 0 where
  expected : String → Report
  unexpected_success : Report
  other_error : BridgeError → Report

abbrev pub report {ℓ} : {A : Type ℓ} → ErrorKind → Result BridgeError A → Report
report kind (ok v) = unexpected_success
report kind (err e) =
    if is_kind (Error.kind e) kind then expected (Error.message e) else other_error e

abbrev pub first {ℓ} : {A : Type ℓ} → ℕ → List A → List A
first zero l = []
first (suc n) [] = []
first (suc n) (x ∷ l) = x ∷ first n l

-- One line of the list of the equipment.
pub record EntryLine : Type 0 where
  pub idx : ℕ
  pub label : String
  pub available : Bool
  pub active : Bool

-- The count of the entries, the lines printed, and how many more there are.
pub record Listing : Type 0 where
  pub count : ℕ
  pub lines : List EntryLine
  pub more : ℕ

-- The line of one client: `id={} {}`, less its indent.
abbrev pub greeting_text : {V : Type 0} → Option (HelloPayload V) → String
greeting_text none = "(no hello yet)"
greeting_text (some g) = String.◌++◌ "client=" (
    String.◌++◌ (unwrap_or g.client "?") (
      String.◌++◌ ", aircraft=" (
        String.◌++◌ (unwrap_or g.aircraft "?")
          (String.◌++◌ ", session=" (unwrap_or g.session "?")))))

abbrev pub client_line : {V : Type 0} → ClientInfo V → String
client_line c =
    String.◌++◌ "id=" (String.◌++◌ (show_u64 c.id) (String.◌++◌ " " (greeting_text c.greeting)))

module _ (j : Json) where
  open j use {Value, get, as_bool, as_u64, as_str, as_array, u64, string, object}

  abbrev pub entry_line : Value → EntryLine
  entry_line v = record {
    idx = unwrap_or (get v "idx" >>= as_u64) 0;
    label = unwrap_or (get v "label" >>= as_str) "?";
    available = unwrap_or (get v "available" >>= as_bool) false;
    active = unwrap_or (get v "active" >>= as_bool) false;
  }

  -- What is printed of a response: without an array of entries only the count.
  abbrev pub listing_of : Option (List Value) → Listing
  listing_of none = record { count = 0; lines = []; more = 0 }
  listing_of (some vs) = record {
    count = length vs;
    lines = map entry_line (first 3 vs);
    more = length vs - 3;
  }

  unfoldable pub listing : Value → Listing
  listing response = listing_of (get response "entries" >>= as_array)

  abbrev pub listed : Result BridgeError Value → Result BridgeError Listing
  listed (ok response) = ok (listing response)
  listed (err e) = err e

  abbrev pub no_payload : Value
  no_payload = object []

  abbrev pub toggle_payload : Value
  toggle_payload = object (("equipIdx", u64 1) ∷ ("cmd", u64 2) ∷ [])

  abbrev pub config_payload : Value
  config_payload = object (("livery", string "American Airlines") ∷ ("year", u64 1985) ∷ [])

  module _ (r : Runtime j) where
    -- The id of one command, and the steps of other tasks before and after its delivery.
    pub record Turn : Type 0 where
      pub id : String
      pub before : List (Op j r)
      pub meanwhile : List (Op j r)

    abbrev pub server_command :
        String → Value → ℕ → Turn → Hub j r → Result BridgeError Value × Hub j r
    server_command name payload timeout t h =
        BridgeServer.command j r t.id name payload timeout t.before t.meanwhile h

    unfoldable pub before_connect : Turn → Hub j r → Report × Hub j r
    before_connect t h =
        let (result, h') = server_command "equip_query" no_payload (from_secs 1) t h in
        (report ErrorKind.no_clients result, h')

    unfoldable pub equip_query : Turn → Hub j r → Result BridgeError Listing × Hub j r
    equip_query t h =
        let (result, h') = server_command "equip_query" no_payload (from_secs 3) t h in
        (listed result, h')

    unfoldable pub equip_cmd : Turn → Hub j r → Result BridgeError Value × Hub j r
    equip_cmd t h = server_command "equip_cmd" toggle_payload (from_secs 3) t h

    unfoldable pub config_updated : Hub j r → Result BridgeError (Unit {0}) × Hub j r
    config_updated h = BridgeServer.emit j r "config_updated" config_payload h

    unfoldable pub slow_command : Turn → Hub j r → Report × Hub j r
    slow_command t h =
        let (result, h') = server_command "slow_command" no_payload 500 t h in
        (report ErrorKind.timeout result, h')

    unfoldable pub nonexistent_command : Turn → Hub j r → Report × Hub j r
    nonexistent_command t h =
        let (result, h') = server_command "nonexistent_command" no_payload (from_secs 3) t h in
        (report ErrorKind.application result, h')

    -- What `main` reports, in its order.
    pub record Reports : Type 0 where
      pub early : Report
      pub clients : List String
      pub equipment : Result BridgeError Listing
      pub toggle : Result BridgeError Value
      pub config : Result BridgeError (Unit {0})
      pub slow : Report
      pub nonexistent : Report

    -- `main` from the first demonstration on: `connecting` is what other tasks do while it waits for
    -- a gauge and its greeting.
    unfoldable pub demonstrations :
        Turn → List (Op j r) → Turn → Turn → Turn → Turn → Hub j r → Reports × Hub j r
    unfolding before_connect equip_query equip_cmd config_updated slow_command nonexistent_command
    demonstrations first connecting query toggle slow last h =
        let (early, h1) = before_connect first h in
        let h2 = run j r h1 connecting in
        let (equipment, h3) = equip_query query h2 in
        let (toggled, h4) = equip_cmd toggle h3 in
        let (updated, h5) = config_updated h4 in
        let (slowly, h6) = slow_command slow h5 in
        let (unknown, h7) = nonexistent_command last h6 in
        (
          record {
            early = early;
            clients = map client_line (BridgeServer.clients j r h2);
            equipment = equipment;
            toggle = toggled;
            config = updated;
            slow = slowly;
            nonexistent = unknown;
          },
          h7,
        )
