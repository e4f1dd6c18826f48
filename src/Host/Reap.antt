-- ===== src/Host/Reap.antt =====
-- The reaper: which clients `reap_dead_clients` removes, and which it names.
use infinity_wasm_bridge.Prelude.{
  ℕ, ◌-◌, ◌≡◌, refl, Bool, false, Option, none, some, List, [], ◌∷◌, ◌∙◌, arith, if◌then◌else◌,
  nat_eq, nat_beq_iff, contains, ltb,
}
use infinity_wasm_bridge.Prelude.HashMap
use infinity_wasm_bridge.Prelude.HashMap.{IsUnique}
use infinity_wasm_bridge.Wire.Json.{Json}
use infinity_wasm_bridge.Host.Runtime.{Runtime}
use infinity_wasm_bridge.Host.Hub.{Client, Hub, Clients, dead_ids, remove_all, reap_dead_clients}

module _ (j : Json) (r : Runtime j) where
  pub get-remove_all :
      (ids : List ℕ) (cs : Clients j r) (id : ℕ)
      → HashMap.get id (remove_all j r ids cs)
        ≡ (if contains ids id then none else HashMap.get id cs)
  unfolding remove_all contains
  get-remove_all [] cs id = refl
  get-remove_all (i ∷ ids) cs id =
      ground (arith, get-remove_all ids (HashMap.remove i cs) id, HashMap.get-remove i id cs)

  module _ (timeout now : ℕ) where
    -- The client was silent for longer than the timeout.
    abbrev pub is_silent : Option (Client j r) → Bool
    is_silent none = false
    is_silent (some c) = ltb timeout (now - c.last_seen)

    abbrev pub survivor : Option (Client j r) → Option (Client j r)
    survivor o = if is_silent o then none else o

    contains-dead_ids :
        (cs : Clients j r) (id : ℕ)
        → IsUnique cs
        → contains (dead_ids j r timeout now cs) id ≡ is_silent (HashMap.get id cs)
    unfolding dead_ids contains HashMap.get
    contains-dead_ids [] id u = refl
    contains-dead_ids ((i, c) ∷ cs) id u =
        ground (arith, contains-dead_ids cs id u.1, nat_beq_iff i id)

    -- In a hub where no id stands twice, the reaper names a client exactly when it was registered
    -- and had been silent for longer than the timeout; those it names are gone from the hub, and
    -- every other client stays as it was.
    pub reap_dead_clients_lem :
        (h : Hub j r) (id : ℕ)
        → IsUnique h.clients
        → let (dead, h') = reap_dead_clients j r timeout now h in
          (contains dead id ≡ is_silent (HashMap.get id h.clients))
          × (HashMap.get id h'.clients ≡ survivor (HashMap.get id h.clients))
    unfolding reap_dead_clients
    reap_dead_clients_lem h id u =
        let named = contains-dead_ids h.clients id u in
        (named, get-remove_all (dead_ids j r timeout now h.clients) h.clients id ∙ rw named)
