-- ===== src/Host/Status.antt =====
-- The connection status that the hub publishes, and the ids that it hands out.
use infinity_wasm_bridge.Prelude.{
  ℕ, ◌≡◌, refl, true, false, not, List, [], ◌∷◌, ◌∙◌, ap, sym, is_empty, inl, inr, ◌⊎◌, nat_eq,
}
use infinity_wasm_bridge.Prelude.HashMap
use infinity_wasm_bridge.Prelude.HashMap.{IsUnique}
use infinity_wasm_bridge.Wire.Json.{Json}
use infinity_wasm_bridge.Host.Runtime.{Runtime}
use infinity_wasm_bridge.Host.Hub.{
  Hub, new, register_client, set_client_hello, unregister_client, touch_client, dead_ids,
  remove_all, reap_dead_clients, set_client_ready, is_connected, connection_status,
}
use infinity_wasm_bridge.Host.Frame.{SameClients, step-SameClients}
use infinity_wasm_bridge.Host.Steps.{
  Op, registers, greets, unregisters, touches, reaps, readies, step, run,
}

List-cases {ℓ} : {A : Type ℓ} (l : List A) → (l ≡ []) ⊎ ((x : A) × (xs : List A) × (l ≡ x ∷ xs))
List-cases [] = inl refl
List-cases (x ∷ xs) = inr (x, xs, refl)

module _ (j : Json) (r : Runtime j) where
  open r use {borrow}

  -- The watch channel shows whether a client is registered.
  abbrev IsCurrent : Hub j r → Type 0
  IsCurrent h = borrow h.connection ≡ not (is_empty h.clients)

  SameClients-IsCurrent : (h h' : Hub j r) → SameClients j r h h' → IsCurrent h → IsCurrent h'
  SameClients-IsCurrent h h' same v = rw (same.clients, same.connection) v

  reap-IsCurrent :
      (timeout now : ℕ) (h : Hub j r)
      → IsCurrent h
      → IsCurrent (reap_dead_clients j r timeout now h).1
  unfolding reap_dead_clients remove_all
  reap-IsCurrent timeout now h v = elim (List-cases (dead_ids j r timeout now h.clients)) [
    | inl e ↦ rw (e, reap_dead_clients) v
    | inr (id, ids, e) ↦ rw (e, reap_dead_clients) (r.borrow-send_replace _ h.connection)
  ]

  step-IsCurrent : (h : Hub j r) (op : Op j r) → IsCurrent h → IsCurrent (step j r h op)
  unfolding step register_client set_client_hello unregister_client touch_client set_client_ready
  step-IsCurrent h (registers tx now) v =
      r.borrow-send_replace true h.connection
      ∙ ap not (sym (HashMap.is_empty-insert h.next_id _ h.clients))
  step-IsCurrent h (greets id greeting) v =
      v ∙ ap not (sym (HashMap.is_empty-modify id _ h.clients))
  step-IsCurrent h (unregisters id) v = r.borrow-send_replace _ h.connection
  step-IsCurrent h (touches id now) v = v ∙ ap not (sym (HashMap.is_empty-modify id _ h.clients))
  step-IsCurrent h (reaps timeout now) v = reap-IsCurrent timeout now h v
  step-IsCurrent h (readies id ready) v = v ∙ ap not (sym (HashMap.is_empty-modify id _ h.clients))
  step-IsCurrent h op v = SameClients-IsCurrent h _ (step-SameClients j r h op tt) v

  run-IsCurrent : (h : Hub j r) (ops : List (Op j r)) → IsCurrent h → IsCurrent (run j r h ops)
  unfolding run
  run-IsCurrent h [] v = v
  run-IsCurrent h (op ∷ ops) v = run-IsCurrent (step j r h op) ops (step-IsCurrent h op v)

  -- After any operations on a new hub, in any order, the published connection status is true
  -- exactly when a client is registered.
  pub connection_status-run :
      (capacity : ℕ) (net : r.Net) (acks : r.Acks) (ops : List (Op j r))
      → connection_status j r (run j r (new j r capacity net acks) ops)
        ≡ is_connected j r (run j r (new j r capacity net acks) ops)
  unfolding connection_status is_connected new
  connection_status-run capacity net acks ops = run-IsCurrent _ ops (r.borrow-new false)
