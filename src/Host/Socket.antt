-- ===== src/Host/Socket.antt =====
-- A whole connection (`handle_socket` of crates/infinity-bridge-host/src/server.rs).
use infinity_wasm_bridge.Prelude.{
  ℕ, ◌≡◌, true, none, List, ◌∙◌, any, nat_eq, ◌==◌, nat_beq_iff, Bool-cases, inl, inr, sym,
}
use infinity_wasm_bridge.Prelude.HashMap
use infinity_wasm_bridge.Wire.Json.{Json}
use infinity_wasm_bridge.Host.Runtime.{Runtime}
use infinity_wasm_bridge.Host.Hub.{Hub, register_client, fresh_client}
use infinity_wasm_bridge.Host.Server.{Signal, gives_up, handle_socket}
use infinity_wasm_bridge.Host.Listening.{ends, get-read_loop}

module _ (j : Json) (r : Runtime j) where
  -- A connection that gets an id that no client has, and ends, leaves the clients as it found them.
  pub get-handle_socket :
      (tx : r.Sender) (now : ℕ) (signals : List (Signal j.Text)) (h : Hub j r) (id : ℕ)
      → HashMap.get h.next_id h.clients ≡ none
      → any ends signals ≡ true
      → let (again, h') = handle_socket j r tx now signals h in
        (again ≡ gives_up) × (HashMap.get id h'.clients ≡ HashMap.get id h.clients)
  unfolding handle_socket register_client
  get-handle_socket tx now signals h id unused ended =
      let h' = (register_client j r tx now h).1 in
      let (again, known) = get-read_loop j r h.next_id signals h' id in
      let inserted = HashMap.get-insert h.next_id id (fresh_client j r tx now) h.clients in
      (
        again ∙ rw ended,
        known ∙ elim (Bool-cases (h.next_id == id)) [
          | inl same ↦ rw (same, ended) (sym (rw ((nat_beq_iff h.next_id id).0 same) at unused))
          | inr differs ↦ rw differs (inserted ∙ rw differs)
        ],
      )
