-- ===== src/Wire/Error.antt =====
-- crates/infinity-bridge-wire/src/error.rs.
use Prim.Native.String.{◌++◌}
use infinity_wasm_bridge.Prelude.{String, Bool, true, false}

pub data ErrorKind : Type 0 where
  transport timeout protocol application no_clients : ErrorKind

-- The derived `PartialEq`.
abbrev pub is_kind : ErrorKind → ErrorKind → Bool
is_kind transport transport = true
is_kind timeout timeout = true
is_kind protocol protocol = true
is_kind application application = true
is_kind no_clients no_clients = true
is_kind k l = false

-- The texts of `Display for ErrorKind`.
unfoldable pub show_kind : ErrorKind → String
show_kind transport = "TRANSPORT"
show_kind timeout = "TIMEOUT"
show_kind protocol = "PROTOCOL"
show_kind application = "APPLICATION"
show_kind no_clients = "NO_CLIENTS"

pub record BridgeError : Type 0 where
  pub kind : ErrorKind
  pub message : String

abbrev pub new_error : ErrorKind → String → BridgeError
new_error kind message = record { kind = kind; message = message }

abbrev pub kind : BridgeError → ErrorKind
kind e = e.kind

abbrev pub message : BridgeError → String
message e = e.message

abbrev pub transport_error : String → BridgeError
transport_error m = new_error transport m

abbrev pub timeout_error : String → BridgeError
timeout_error m = new_error timeout m

abbrev pub protocol_error : String → BridgeError
protocol_error m = new_error protocol m

abbrev pub application_error : String → BridgeError
application_error m = new_error application m

abbrev pub no_clients_error : String → BridgeError
no_clients_error m = new_error no_clients m

-- `Display for BridgeError`: `[KIND] message`.
unfoldable pub show_error : BridgeError → String
show_error e = "[" ++ (show_kind e.kind ++ ("] " ++ e.message))

-- `From<serde_json::Error>`; the argument is the text that the JSON error displays.
abbrev pub from_json_error : String → BridgeError
from_json_error e = protocol_error ("JSON error: " ++ e)
