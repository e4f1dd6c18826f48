-- ===== src/Wasm/Routing.antt =====
-- Which handler a router picks, told without its loop.
use mathlib.Core.Path.{subst}
use text.Mathlib.TextEquality.{eq_iff}
use infinity_wasm_bridge.Prelude.{
  String, ◌≡◌, refl, ◌≢◌, ◌↔◌, ◌⊎◌, inl, inr, Option, none, some, List, [], ◌∷◌, ◌++◌, err, ◌==◌,
  string_eq, if◌then◌else◌, is_some, All, Bool-cases, Option-cases, arith, ap,
}
use infinity_wasm_bridge.Wasm.Handler.{Answer}
use infinity_wasm_bridge.Wasm.Router.{
  Router, CommandFn, EventFn, Fallback, first_named, command, unknown_command, fall_back,
  on_command, on_event,
}

-- The first entry under a name: those before it have other names.
pub record IsFirst {ℓ} {A : Type ℓ} (name : String) (h : A) (l : List (String × A)) : Type ℓ where
  pub before : List (String × A)
  pub after : List (String × A)
  pub split : l ≡ before ++ (name, h) ∷ after
  pub others : All (λ c. c.0 ≢ name) before

-- No entry has the name.
abbrev pub IsAbsent {ℓ} : {A : Type ℓ} → String → List (String × A) → Type 0
IsAbsent name l = All (λ c. c.0 ≢ name) l

module _ {ℓ} {A : Type ℓ} (name : String) where
  first_named-IsFirst :
      (l : List (String × A)) (h : A) → first_named name l ≡ some h → IsFirst name h l
  unfolding first_named
  first_named-IsFirst [] h e = cc
  first_named-IsFirst ((n, g) ∷ l) h e = elim (Bool-cases (n == name)) [
    | inl same ↦ record {
      before = [];
      after = l;
      split = ground (arith, eq_iff n name);
      others = tt;
    }
    | inr differ ↦
        let later = first_named-IsFirst l h (rw differ at e) in
        record {
          before = (n, g) ∷ later.before;
          after = later.after;
          split = ap (◌∷◌ (n, g)) later.split;
          others = (ground (arith, eq_iff n name), later.others);
        }
  ]

  first_named-before :
      (before after : List (String × A)) (h : A)
      → All (λ c. c.0 ≢ name) before
      → first_named name (before ++ (name, h) ∷ after) ≡ some h
  unfolding first_named
  first_named-before [] after h o = ground (arith, eq_iff name name)
  first_named-before ((n, g) ∷ before) after h o =
      ground (arith, eq_iff n name, first_named-before before after h o.1)

  first_named-IsAbsent : (l : List (String × A)) → (first_named name l ≡ none) ↔ IsAbsent name l
  unfolding first_named
  first_named-IsAbsent [] = (λ e. tt, λ a. refl)
  first_named-IsAbsent ((n, g) ∷ l) = grind (arith, eq_iff n name, first_named-IsAbsent l)

  first_named-append :
      (l : List (String × A)) (n : String) (h : A)
      → first_named name (l ++ (n, h) ∷ []) ≡ (
          if is_some (first_named name l)
          then first_named name l
          else if n == name
          then some h
          else none)
  unfolding first_named
  first_named-append [] n h = ground arith
  first_named-append ((m, g) ∷ l) n h = ground (arith, first_named-append l n h)

-- No command is registered under the name, or there is no name.
abbrev pub IsUnregistered : {V S : Type 0} → Router V S → Option String → Type 0
IsUnregistered r none = Unit
IsUnregistered r (some name) = IsAbsent name r.commands

module _ {V S : Type 0} (r : Router V S) (payload : V) (s : S) where
  -- The answer that the rules of the router give to a command.
  pub data Routes (name : Option String) (out : Answer V S) : Type 0 where
    named :
        (n : String) (h : CommandFn V S)
        → name ≡ some n
        → IsFirst n h r.commands
        → out ≡ h payload s
        → Routes name out
    fell_back :
        (f : Fallback V S)
        → IsUnregistered r name
        → r.on_unknown ≡ some f
        → out ≡ f name payload s
        → Routes name out
    unknown :
        IsUnregistered r name
        → r.on_unknown ≡ none
        → out ≡ (err (unknown_command name), s)
        → Routes name out

  fall_back-Routes :
      (name : Option String) → IsUnregistered r name → Routes name (fall_back r name payload s)
  unfolding fall_back
  fall_back-Routes name u = elim (Option-cases r.on_unknown) [
    | inl e ↦ unknown u e (ground arith)
    | inr (f, e) ↦ fell_back f u e (ground arith)
  ]

  on_command-Routes : (name : Option String) → Routes name (on_command r name payload s)
  unfolding on_command
  on_command-Routes none = fall_back-Routes none tt
  on_command-Routes (some n) = elim (Option-cases (first_named n r.commands)) [
    | inl e ↦
        rw (e, on_command) (fall_back-Routes (some n) ((first_named-IsAbsent n r.commands).0 e))
    | inr (h, e) ↦ named n h refl (first_named-IsFirst n r.commands h e) (ground arith)
  ]

  fall_back-lookup :
      (name : Option String)
      → IsUnregistered r name
      → on_command r name payload s ≡ fall_back r name payload s
  unfolding on_command
  fall_back-lookup none u = refl
  fall_back-lookup (some n) u = rw ((first_named-IsAbsent n r.commands).1 u, on_command)

  Routes-on_command :
      (name : Option String) (out : Answer V S)
      → Routes name out
      → on_command r name payload s ≡ out
  unfolding on_command fall_back
  Routes-on_command name out (named n h e first o) =
      rw (
        e,
        o,
        on_command,
        first.split,
        first_named-before n first.before first.after h first.others,
      )
  Routes-on_command name out (fell_back f u e o) = rw (o, fall_back-lookup name u, fall_back, e)
  Routes-on_command name out (unknown u e o) = rw (o, fall_back-lookup name u, fall_back, e)

  -- A command is answered by the first handler that was registered under its name; by the
  -- fallback, if there is none or the command has no name; and by an UNKNOWN_COMMAND error that
  -- changes no state, if there is no fallback either.
  pub on_command-eq_iff :
      (name : Option String) (out : Answer V S)
      → (on_command r name payload s ≡ out) ↔ Routes name out
  on_command-eq_iff name out =
      (λ e. subst (Routes name) e (on_command-Routes name), Routes-on_command name out)

  -- An event runs the first handler that was registered under its name, and no other; an event that
  -- nobody registered for changes nothing.
  pub on_event-IsFirst :
      (name : String)
      → ((h : EventFn V S) × IsFirst name h r.events × (on_event r name payload s ≡ h payload s))
        ⊎ (IsAbsent name r.events × (on_event r name payload s ≡ s))
  unfolding on_event
  on_event-IsFirst name = elim (Option-cases (first_named name r.events)) [
    | inl e ↦ inr ((first_named-IsAbsent name r.events).0 e, ground arith)
    | inr (h, e) ↦ inl (h, first_named-IsFirst name r.events h e, ground arith)
  ]

  -- Registering a command adds an answer for its name where there was none, and changes no answer
  -- that a name already had.
  pub on_command-command :
      (n : String) (h : CommandFn V S) (name : String)
      → on_command (command r n h) (some name) payload s ≡ (
          if is_some (first_named name r.commands)
          then on_command r (some name) payload s
          else if n == name
          then h payload s
          else on_command r (some name) payload s)
  unfolding on_command command fall_back
  on_command-command n h name = ground (arith, first_named-append name r.commands n h)
