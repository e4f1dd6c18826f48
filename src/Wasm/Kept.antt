-- ===== src/Wasm/Kept.antt =====
-- What the handlers of a router leave true of the state, the router leaves true, and so does the bridge
-- (crates/infinity-bridge-wasm/src/bridge.rs).
use mathlib.Core.Path.{subst}
use infinity_wasm_bridge.Prelude.{
  String, ◌≡◌, Option, none, some, List, [], ◌∷◌, ◌==◌, string_eq, All, Bool-cases, Option-cases,
  inl, inr, eq_of_some-eq,
}
use infinity_wasm_bridge.Wire.Json.{Json}
use infinity_wasm_bridge.Wasm.Router.{
  Router, Fallback, first_named, fall_back, on_command, on_event, router_handler,
}
use infinity_wasm_bridge.Wasm.Bus.{CommBus}
use infinity_wasm_bridge.Wasm.Bridge.{dispatch}
use infinity_wasm_bridge.Wasm.Dispatch.{ignored, heard, commanded, unnamed, dispatch-Reaction}

first_named-All {ℓ κ} :
    {A : Type ℓ} (P : A → Type κ) (name : String) (l : List (String × A)) (a : A)
    → All (λ b. P b.1) l
    → first_named name l ≡ some a
    → P a
unfolding first_named
first_named-All P name [] a all found = cc
first_named-All P name ((n, h) ∷ rest) a all found = elim (Bool-cases (n == name)) [
  | inl same ↦ subst P (eq_of_some-eq (rw (same, first_named) at found)) all.0
  | inr other ↦ first_named-All P name rest a all.1 (rw (other, first_named) at found)
]

module _ {V S : Type 0} (P : S → Type 0) where
  -- Every handler leaves `P` true.
  pub record Keeps (r : Router V S) : Type 0 where
    pub commands : All (λ c. (payload : V) (s : S) → P s → P (c.1 payload s).1) r.commands
    pub events : All (λ e. (payload : V) (s : S) → P s → P (e.1 payload s)) r.events
    pub unknown :
        (f : Fallback V S) (name : Option String) (payload : V) (s : S)
        → r.on_unknown ≡ some f
        → P s
        → P (f name payload s).1

  module _ (r : Router V S) (k : Keeps r) where
    fall_back-Keeps :
        (name : Option String) (payload : V) (s : S) → P s → P (fall_back r name payload s).1
    unfolding fall_back
    fall_back-Keeps name payload s p = elim (Option-cases r.on_unknown) [
      | inl missing ↦ rw (fall_back, missing) p
      | inr (f, found) ↦ rw (fall_back, found) (k.unknown f name payload s found p)
    ]

    on_command-Keeps :
        (name : Option String) (payload : V) (s : S) → P s → P (on_command r name payload s).1
    unfolding on_command
    on_command-Keeps none payload s p = fall_back-Keeps none payload s p
    on_command-Keeps (some name) payload s p = elim (Option-cases (first_named name r.commands)) [
      | inl missing ↦ rw (on_command, missing) (fall_back-Keeps (some name) payload s p)
      | inr (f, found) ↦
          rw (on_command, found)
            (first_named-All (λ c. (payload : V) (s : S) → P s → P (c payload s).1) name r.commands
              f k.commands found payload s p)
    ]

    on_event-Keeps : (name : String) (payload : V) (s : S) → P s → P (on_event r name payload s)
    unfolding on_event
    on_event-Keeps name payload s p = elim (Option-cases (first_named name r.events)) [
      | inl missing ↦ rw (on_event, missing) p
      | inr (f, found) ↦
          rw (on_event, found)
            (first_named-All (λ c. (payload : V) (s : S) → P s → P (c payload s)) name r.events f
              k.events found payload s p)
    ]

module _ (j : Json) (b : CommBus j.Text) {S : Type 0} (P : S → Type 0) where
  -- Whatever text arrives.
  pub dispatch-Keeps :
      (r : Router j.Value S) (response_event : String) (raw : j.Text) (s : S) (w : b.World)
      → Keeps P r
      → P s
      → P (dispatch j b (router_handler r) response_event raw s w).0
  dispatch-Keeps r response_event raw s w k p =
      elim (dispatch-Reaction j b (router_handler r) response_event s w raw) [
        | ignored e same ↦ rw same p
        | heard env e parsed read same ↦ rw same (on_event-Keeps P r k e.name e.payload s p)
        | commanded env c parsed read ran ↦
            rw ran.state (on_command-Keeps P r k c.name c.payload s p)
        | unnamed env parsed other ran ↦ rw ran.state (on_command-Keeps P r k none env.payload s p)
      ]
