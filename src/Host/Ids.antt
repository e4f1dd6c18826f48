-- ===== src/Host/Ids.antt =====
-- Client ids: no id is handed out twice, and no two clients share one.
use infinity_wasm_bridge.Prelude.{
  ℕ, ◌+◌, ◌≤◌, ◌<◌, ◌%◌, ◌^◌, ◌≡◌, refl, none, some, List, [], ◌∷◌, arith, length, All, false,
  if◌then◌else◌, nat_eq, ◌==◌,
}
use infinity_wasm_bridge.Prelude.HashMap
use infinity_wasm_bridge.Prelude.HashMap.{IsUnique}
use infinity_wasm_bridge.Wire.Json.{Json}
use infinity_wasm_bridge.Host.Runtime.{Runtime}
use infinity_wasm_bridge.Host.Hub.{
  Client, Hub, Clients, new, register_client, set_client_hello, unregister_client, touch_client,
  dead_ids, remove_all, reap_dead_clients, set_client_ready, fresh_client,
}
use infinity_wasm_bridge.Host.Frame.{SameClients, step-SameClients}
use infinity_wasm_bridge.Host.Steps.{
  Op, registers, greets, unregisters, touches, reaps, readies, is_registration, step, run,
}

module _ (j : Json) (r : Runtime j) where
  -- Every id in the map was handed out, and stands there once.
  pub record HasIds (h : Hub j r) : Type 0 where
    pub unique : IsUnique h.clients
    pub below : All (λ b. b.0 < h.next_id) h.clients

  below_suc : (n : ℕ) (cs : Clients j r) → All (λ b. b.0 < n) cs → All (λ b. b.0 < n + 1) cs
  below_suc n [] a = tt
  below_suc n (c ∷ cs) a = (omega arith, below_suc n cs a.1)

  remove_all-IsUnique :
      (ids : List ℕ) (cs : Clients j r) → IsUnique cs → IsUnique (remove_all j r ids cs)
  unfolding remove_all
  remove_all-IsUnique [] cs u = u
  remove_all-IsUnique (id ∷ ids) cs u =
      remove_all-IsUnique ids (HashMap.remove id cs) (HashMap.remove-IsUnique id cs u)

  remove_all-below :
      (n : ℕ) (ids : List ℕ) (cs : Clients j r)
      → All (λ b. b.0 < n) cs
      → All (λ b. b.0 < n) (remove_all j r ids cs)
  unfolding remove_all
  remove_all-below n [] cs a = a
  remove_all-below n (id ∷ ids) cs a =
      remove_all-below n ids (HashMap.remove id cs) (HashMap.remove-All (λ k. k < n) id cs a)

  modify-HasIds :
      (id : ℕ) (f : Client j r → Client j r) (h : Hub j r)
      → HasIds h
      → HasIds (record h { clients = HashMap.modify id f h.clients })
  modify-HasIds id f h v = record {
    unique = HashMap.modify-IsUnique id f h.clients v.unique;
    below = HashMap.modify-All (λ k. k < h.next_id) id f h.clients v.below;
  }

  pub SameClients-HasIds : (h h' : Hub j r) → SameClients j r h h' → HasIds h → HasIds h'
  SameClients-HasIds h h' same v = record {
    unique = rw same.clients v.unique;
    below = rw (same.clients, same.next_id) v.below;
  }

  pub register_client-HasIds :
      (tx : r.Sender) (now : ℕ) (h : Hub j r)
      → h.next_id + 1 < 2 ^ 64
      → HasIds h
      → HasIds (register_client j r tx now h).1
        × ((register_client j r tx now h).1.next_id ≡ h.next_id + 1)
  unfolding register_client
  register_client-HasIds tx now h lt v =
      let e : (h.next_id + 1) % 2 ^ 64 ≡ h.next_id + 1 = omega arith in
      (
        record {
          unique = HashMap.insert-IsUnique h.next_id _ h.clients v.unique;
          below = rw e (
              HashMap.insert-All (λ k. k < h.next_id + 1) h.next_id _ h.clients (omega arith)
                (below_suc h.next_id h.clients v.below));
        },
        e,
      )

  id-register :
      (tx : r.Sender) (now : ℕ) (h : Hub j r) → (register_client j r tx now h).0 ≡ h.next_id
  unfolding register_client
  id-register tx now h = refl

  pub step-HasIds_quiet :
      (h : Hub j r) (op : Op j r)
      → is_registration j r op ≡ false
      → HasIds h
      → HasIds (step j r h op) × ((step j r h op).next_id ≡ h.next_id)
  unfolding step set_client_hello unregister_client touch_client set_client_ready reap_dead_clients
  step-HasIds_quiet h (registers tx now) e v = cc
  step-HasIds_quiet h (greets id greeting) e v = (modify-HasIds id _ h v, refl)
  step-HasIds_quiet h (unregisters id) e v = (
    record {
      unique = HashMap.remove-IsUnique id h.clients v.unique;
      below = HashMap.remove-All (λ k. k < h.next_id) id h.clients v.below;
    },
    refl,
  )
  step-HasIds_quiet h (touches id now) e v = (modify-HasIds id _ h v, refl)
  step-HasIds_quiet h (reaps timeout now) e v = (
    record {
      unique = remove_all-IsUnique (dead_ids j r timeout now h.clients) h.clients v.unique;
      below = remove_all-below h.next_id (dead_ids j r timeout now h.clients) h.clients v.below;
    },
    refl,
  )
  step-HasIds_quiet h (readies id ready) e v = (modify-HasIds id _ h v, refl)
  step-HasIds_quiet h op e v =
      let same = step-SameClients j r h op tt in (SameClients-HasIds h _ same v, same.next_id)

  pub step-HasIds :
      (h : Hub j r) (op : Op j r)
      → h.next_id + 1 < 2 ^ 64
      → HasIds h
      → HasIds (step j r h op)
        × (h.next_id ≤ (step j r h op).next_id)
        × ((step j r h op).next_id ≤ h.next_id + 1)
  unfolding step
  step-HasIds h (registers tx now) lt v =
      let (kept, next) = register_client-HasIds tx now h lt v in (kept, omega arith, omega arith)
  step-HasIds h op lt v =
      let (kept, same) = step-HasIds_quiet h op refl v in (kept, omega arith, omega arith)

  pub run-HasIds :
      (h : Hub j r) (ops : List (Op j r))
      → h.next_id + length ops < 2 ^ 64
      → HasIds h
      → HasIds (run j r h ops)
        × (h.next_id ≤ (run j r h ops).next_id)
        × ((run j r h ops).next_id ≤ h.next_id + length ops)
  unfolding run
  run-HasIds h [] lt v = (v, omega arith, omega arith)
  run-HasIds h (op ∷ ops) lt v =
      let (kept, low, high) = step-HasIds h op (omega arith) v in
      let (kept', low', high') = run-HasIds (step j r h op) ops (omega arith) kept in
      (kept', omega arith, omega arith)

  pub new-HasIds : (capacity : ℕ) (net : r.Net) (acks : r.Acks) → HasIds (new j r capacity net acks)
  unfolding new
  new-HasIds capacity net acks = record { unique = tt; below = tt }

  -- While fewer than 2 ^ 64 - 1 operations have run on a new hub, a connection is registered under an
  -- id that no client has; the map then holds a fresh client under it, and under every other id what
  -- it held before.
  pub get-register_client :
      (capacity : ℕ) (net : r.Net) (acks : r.Acks) (ops : List (Op j r)) (tx : r.Sender)
      (now other : ℕ)
      → length ops + 1 < 2 ^ 64
      → let h = run j r (new j r capacity net acks) ops in
        let (id, h') = register_client j r tx now h in
        (HashMap.get id h.clients ≡ none)
        × (HashMap.get other h'.clients
            ≡ (if id == other then some (fresh_client j r tx now) else HashMap.get other h.clients))
  unfolding register_client new
  get-register_client capacity net acks ops tx now other lt =
      let h = run j r (new j r capacity net acks) ops in
      let (v, _, _) =
        run-HasIds (new j r capacity net acks) ops (omega arith) (new-HasIds capacity net acks) in
      (
        HashMap.get-none_of_All (λ k. k < h.next_id) h.next_id h.clients (λ lt. omega arith)
            v.below,
        HashMap.get-insert h.next_id other _ h.clients,
      )

  -- In a hub whose clients have distinct ids below the next one, an id is never handed out again: a
  -- later connection gets a greater one, whatever happened in between, while fewer than 2 ^ 64 ids
  -- are used.
  pub register_client-lt :
      (h : Hub j r) (ops : List (Op j r)) (tx tx' : r.Sender) (now now' : ℕ)
      → HasIds h
      → h.next_id + length ops + 1 < 2 ^ 64
      → let (id, h') = register_client j r tx now h in
        id < (register_client j r tx' now' (run j r h' ops)).0
  register_client-lt h ops tx tx' now now' v lt =
      let (kept, next) = register_client-HasIds tx now h (omega arith) v in
      let (_, low, _) = run-HasIds (register_client j r tx now h).1 ops (omega arith) kept in
      omega (
        arith,
        id-register tx now h,
        id-register tx' now' (run j r (register_client j r tx now h).1 ops),
      )
