-- ===== src/Host/Answered.antt =====
-- What the caller of `command` (crates/infinity-bridge-host/src/hub.rs) sees of its ack.
use infinity_wasm_bridge.Prelude.{
  ℕ, String, ◌≡◌, refl, ◌≢◌, true, none, some, List, [], ◌∷◌, ◌∙◌, ap, arith, if◌then◌else◌,
  string_eq, ◌==◌, Bool-cases, inl, inr, ◌↔◌, All, unwrap_or, ok,
}
use infinity_wasm_bridge.Prelude.HashMap
use infinity_wasm_bridge.Wire.Json.{Json}
use infinity_wasm_bridge.Wire.Msg.{AckPayload}
use infinity_wasm_bridge.Host.Runtime.{Runtime, waiting, value}
use infinity_wasm_bridge.Host.Hub.{Hub}
use infinity_wasm_bridge.Host.Command.{
  Waited, acked, closed, elapsed, begin, forget, deliver, outcome, finish, dispatch_ack,
}
use infinity_wasm_bridge.Host.Steps.{Op, begins, delivers, finishes, acknowledges, step, run}
use infinity_wasm_bridge.Host.Slots.{HasSlots, SameSlots, begin-HasSlots, dispatch_ack-HasSlots}
use infinity_wasm_bridge.Host.Pending.{
  step-SameSlots, deliver-SameSlots, run-HasSlots, deliver-HasSlots,
}
use infinity_wasm_bridge.Host.Settled.{run-IsSettled}

module _ (j : Json) (r : Runtime j) where
  open r use {Oneshot, Acks, poll}

  -- A step that is not about the command.
  abbrev pub IsOther : String → Op j r → Type 0
  IsOther id (begins k) = k ≢ id
  IsOther id (delivers k text) = k ≢ id
  IsOther id (finishes k timeout waited) = k ≢ id
  IsOther id (acknowledges a) = a.id ≢ id
  IsOther id op = Unit

  get-forget :
      (k id : String) (h : Hub j r)
      → k ≢ id
      → HashMap.get id (forget j r k h).pending ≡ HashMap.get id h.pending
  unfolding forget
  get-forget k id h differs =
      ground (arith, HashMap.get-remove k id h.pending, string_eq.equal_iff k id)

  pub get-step :
      (id : String) (h : Hub j r) (op : Op j r)
      → IsOther id op
      → HashMap.get id (step j r h op).pending ≡ HashMap.get id h.pending
  unfolding step finish begin dispatch_ack
  get-step id h (begins k) differs =
      ground
        (arith, HashMap.get-insert k id (r.channel h.acks).0 h.pending, string_eq.equal_iff k id)
  get-step id h (delivers k text) differs = elim (deliver-SameSlots j r k text h) [
    | inl (_, same) ↦ ap (HashMap.get id) same.pending
    | inr same ↦ ap (HashMap.get id) same.pending ∙ get-forget k id h differs
  ]
  get-step id h (finishes k timeout waited) differs = get-forget k id h differs
  get-step id h (acknowledges a) differs =
      ground (arith, HashMap.get-remove a.id id h.pending, string_eq.equal_iff a.id id)
  get-step id h op t = ap (HashMap.get id) (step-SameSlots j r h op tt).pending

  pub get-run :
      (id : String) (h : Hub j r) (ops : List (Op j r))
      → All (IsOther id) ops
      → HashMap.get id (run j r h ops).pending ≡ HashMap.get id h.pending
  unfolding run
  get-run id h [] all = refl
  get-run id h (op ∷ ops) all = get-run id (step j r h op) ops all.1 ∙ get-step id h op all.0

  pub deliver-none :
      (id : String) (t : j.Text) (h : Hub j r)
      → (deliver j r id t h).0 ≡ none
      → SameSlots j r h (deliver j r id t h).1
  unfolding deliver
  deliver-none id t h e = ground arith

  pub dispatch_ack-value :
      (s : Oneshot) (a : AckPayload j.Value) (h : Hub j r)
      → HashMap.get a.id h.pending ≡ some s
      → poll s h.acks ≡ waiting
      → poll s (dispatch_ack j r a h).acks ≡ value a
  unfolding dispatch_ack
  dispatch_ack-value s a h found open_yet =
      rw (dispatch_ack, found) (r.poll-resolve s a h.acks open_yet)

  -- A command is begun and its delivery does not fail at once. It waits for an ack of its id, even
  -- if every client leaves, as long as no other step before and after its delivery is about that
  -- id. The first ack of the id is what its caller gets, and nothing that happens later, a second
  -- ack of the same id included, takes it back. The hub is one whose pending commands wait on
  -- channels of their own.
  pub poll-command :
      (h : Hub j r) (id : String) (message : j.Text) (a : AckPayload j.Value)
      (before meanwhile later : List (Op j r))
      → HasSlots j r h
      → All (IsOther id) before
      → All (IsOther id) meanwhile
      → a.id ≡ id
      → (deliver j r id message (run j r (begin j r id h).1 before)).0 ≡ none
      → let (s, begun) = begin j r id h in
        let sent = (deliver j r id message (run j r begun before)).1 in
        let waits = run j r sent meanwhile in
        (poll s waits.acks ≡ waiting)
        × (poll s (run j r (dispatch_ack j r a waits) later).acks ≡ value a)
  unfolding begin
  poll-command h id message a before meanwhile later v others others' own delivered =
      let (s, begun) = begin j r id h in
      let sent = (deliver j r id message (run j r begun before)).1 in
      let waits = run j r sent meanwhile in
      let mine : HashMap.get id begun.pending ≡ some s =
        HashMap.get-insert id id s h.pending ∙ rw ((string_eq.equal_iff id id).1 refl) in
      let found : HashMap.get id waits.pending ≡ some s =
        get-run id sent meanwhile others'
        ∙ ap (HashMap.get id) (deliver-none id message (run j r begun before) delivered).pending
        ∙ get-run id begun before others
        ∙ mine in
      let sound = run-HasSlots j r begun before (begin-HasSlots j r id h v) in
      let sound' =
        run-HasSlots j r sent meanwhile
          (deliver-HasSlots j r id message (run j r begun before) sound) in
      let open_yet = sound'.waits id s found in
      (
        open_yet,
        run-IsSettled j r s a (dispatch_ack j r a waits) later
            (dispatch_ack-HasSlots j r a waits sound')
            (dispatch_ack-value s a waits (rw own found) open_yet),
      )

  pub pending-forget :
      (id other : String) (h : Hub j r)
      → HashMap.get other (forget j r id h).pending
        ≡ (if id == other then none else HashMap.get other h.pending)
  unfolding forget
  pending-forget id other h =
      ground (arith, HashMap.get-remove id other h.pending, string_eq.equal_iff id other)

  outcome-eq_iff :
      (timeout : ℕ) (waited : Waited j.Value) (x : j.Value)
      → (outcome j r timeout waited ≡ ok x) ↔ (
          (a : AckPayload j.Value) × (waited ≡ acked a)
          × (a.is_ok ≡ true)
          × (unwrap_or a.response j.null ≡ x))
  unfolding outcome
  outcome-eq_iff timeout (acked a) x = elim (Bool-cases a.is_ok) [
    | inl good ↦ (λ e. (a, refl, good, ground arith), λ (b, same, good', e). ground arith)
    | inr bad ↦ (λ e. ground arith, λ (b, same, good, e). ground arith)
  ]
  outcome-eq_iff timeout closed x = (λ e. ground arith, λ found. ground arith)
  outcome-eq_iff timeout elapsed x = (λ e. ground arith, λ found. ground arith)

  -- The entry of a command that ends is gone and no other is touched. It returns a value exactly when
  -- a positive ack arrived: the value is that of the ack, null if the ack has none.
  pub finish-eq_iff :
      (id other : String) (timeout : ℕ) (waited : Waited j.Value) (h : Hub j r) (x : j.Value)
      → let (result, h') = finish j r id timeout waited h in
        (HashMap.get other h'.pending ≡ (if id == other then none else HashMap.get other h.pending))
        × ((result ≡ ok x) ↔ (
            (a : AckPayload j.Value) × (waited ≡ acked a)
            × (a.is_ok ≡ true)
            × (unwrap_or a.response j.null ≡ x)))
  unfolding finish
  finish-eq_iff id other timeout waited h x =
      (pending-forget id other h, outcome-eq_iff timeout waited x)
