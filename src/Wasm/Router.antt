-- ===== src/Wasm/Router.antt =====
-- `Router` of crates/infinity-bridge-wasm/src/bridge.rs.
use Prim.Native.String
use infinity_wasm_bridge.Prelude.{
  String, Option, none, some, List, [], ◌∷◌, ◌++◌, err, ◌==◌, string_eq, if◌then◌else◌, unwrap_or,
}
use infinity_wasm_bridge.Wasm.Handler.{Answer, BridgeHandler}

abbrev pub CommandFn : Type 0 → Type 0 → Type 0
CommandFn V S = V → S → Answer V S

abbrev pub EventFn : Type 0 → Type 0 → Type 0
EventFn V S = V → S → S

abbrev pub Fallback : Type 0 → Type 0 → Type 0
Fallback V S = Option String → V → S → Answer V S

pub record Router (V S : Type 0) : Type 0 where
  pub commands : List (String × CommandFn V S)
  pub events : List (String × EventFn V S)
  pub on_unknown : Option (Fallback V S)

-- The loops of `on_command` and `on_event`: the first entry of that name.
unfoldable pub first_named {ℓ} : {A : Type ℓ} → String → List (String × A) → Option A
first_named name [] = none
first_named name ((n, h) ∷ rest) = if n == name then some h else first_named name rest

abbrev pub unknown_command : Option String → String
unknown_command name = String.◌++◌ "UNKNOWN_COMMAND: " (unwrap_or name "<unnamed>")

module _ {V S : Type 0} where
  unfoldable pub new : Router V S
  new = record { commands = []; events = []; on_unknown = none }

  unfoldable pub command : Router V S → String → CommandFn V S → Router V S
  command r name handler = record r { commands = r.commands ++ (name, handler) ∷ [] }

  unfoldable pub event : Router V S → String → EventFn V S → Router V S
  event r name handler = record r { events = r.events ++ (name, handler) ∷ [] }

  unfoldable pub fallback : Router V S → Fallback V S → Router V S
  fallback r handler = record r { on_unknown = some handler }

  -- What `on_command` does where no registered name fits.
  unfoldable pub fall_back : Router V S → Fallback V S
  fall_back r name payload s = elim r.on_unknown [
    | some f ↦ f name payload s
    | none ↦ (err (unknown_command name), s)
  ]

  unfoldable pub on_command : Router V S → Option String → V → S → Answer V S
  unfolding first_named fall_back
  on_command r none payload s = fall_back r none payload s
  on_command r (some name) payload s = elim (first_named name r.commands) [
    | some handler ↦ handler payload s
    | none ↦ fall_back r (some name) payload s
  ]

  unfoldable pub on_event : Router V S → String → V → S → S
  unfolding first_named
  on_event r name payload s = elim (first_named name r.events) [
    | some handler ↦ handler payload s
    | none ↦ s
  ]

  abbrev pub router_handler : Router V S → BridgeHandler V S
  router_handler r = record { on_command = on_command r; on_event = on_event r }
