-- ===== src/Host/Alive.antt =====
-- What holds in every state of the server: which tasks run for the clients of its hub.
use mathlib.Core.Option
use infinity_wasm_bridge.Prelude.{
  ℕ, ◌+◌, ◌<◌, ◌≡◌, refl, Bool, true, ◌||◌, Option, none, some, List, [], ◌∙◌, sym, arith,
  if◌then◌else◌, nat_eq, ◌==◌, Bool-cases, inl, inr, ◌^◌,
}
use infinity_wasm_bridge.Prelude.HashMap
use infinity_wasm_bridge.Wire.Json.{Json}
use infinity_wasm_bridge.Host.Runtime.{Runtime}
use infinity_wasm_bridge.Host.Hub.{Client, Hub, new, register_client, unregister_client}
use infinity_wasm_bridge.Host.Steps.{unregisters, step}
use infinity_wasm_bridge.Host.Ids.{HasIds, new-HasIds, register_client-HasIds}
use infinity_wasm_bridge.Host.Server.{Signal, Loop-cases, read_round, ping_tick}
use infinity_wasm_bridge.Host.Tasks.{
  IsTraffic-IsQuiet, IsQuietRun-Shrinks, read_round-IsQuietRun, ping_tick-IsQuietRun,
}
use infinity_wasm_bridge.Host.Quiet.{Shrinks, step-Shrinks}
use infinity_wasm_bridge.Host.Machine.{
  Connection, System, fresh_connection, ended, gave_signal, accept, read, tick, Step, accepts,
  reads, ticks, serves, Reach, start, later,
}

some_of_modified {ℓ} :
    {V : Type ℓ} (f : V → V) (b : Bool) (o : Option V) (x : V)
    → (if b then Option.map f o else o) ≡ some x
    → (y : V) × (o ≡ some y) × (x ≡ (if b then f y else y))
some_of_modified f b none x e = ground arith
some_of_modified f b (some y) x e = (y, refl, ground arith)

modify-some {ℓ} :
    {V : Type ℓ} (id k : ℕ) (f : V → V) (m : List (ℕ × V)) (x : V)
    → HashMap.get k (HashMap.modify id f m) ≡ some x
    → (y : V) × (HashMap.get k m ≡ some y) × (x ≡ (if id == k then f y else y))
modify-some id k f m x e =
    some_of_modified f (id == k) (HashMap.get k m) x (sym (HashMap.get-modify id k f m) ∙ e)

module _ (j : Json) (r : Runtime j) where
  -- The ids of the hub are in order. Each client of the hub has a connection whose reader runs. While
  -- a reader runs, its ping task runs or has signalled it; no ping task outlives its reader.
  pub record IsAlive (s : System j r) : Type 0 where
    pub ids : HasIds j r s.hub
    pub known :
        (id : ℕ) (c : Client j r)
        → HashMap.get id s.hub.clients ≡ some c
        → (k : Connection) × (HashMap.get id s.connections ≡ some k) × (k.reads ≡ true)
    pub watched :
        (id : ℕ) (k : Connection)
        → HashMap.get id s.connections ≡ some k
        → k.reads ≡ true
        → (k.pings || k.signalled) ≡ true
    pub aborted :
        (id : ℕ) (k : Connection)
        → HashMap.get id s.connections ≡ some k
        → k.pings ≡ true
        → k.reads ≡ true

  shrunk-IsAlive :
      (s : System j r) (h : Hub j r)
      → Shrinks j r s.hub h
      → IsAlive s
      → IsAlive (record s { hub = h })
  shrunk-IsAlive s h small v = record {
    ids = small.ids v.ids;
    known = λ id c e. let (c', e') = small.clients id c e in v.known id c' e';
    watched = v.watched;
    aborted = v.aborted;
  }

  accept-IsAlive :
      (tx : r.Sender) (now : ℕ) (s : System j r)
      → s.hub.next_id + 1 < 2 ^ 64
      → IsAlive s
      → IsAlive (accept j r tx now s)
  unfolding accept register_client
  accept-IsAlive tx now s lt v = record {
    ids = (register_client-HasIds j r tx now s.hub lt v.ids).0;
    known = λ id c e. elim (Bool-cases (s.hub.next_id == id)) [
      | inl same ↦ (
        fresh_connection,
        HashMap.get-insert s.hub.next_id id fresh_connection s.connections ∙ rw same,
        refl,
      )
      | inr differs ↦
          let (k, found, running) =
            v.known id c
              (sym (HashMap.get-insert s.hub.next_id id _ s.hub.clients ∙ rw differs) ∙ e) in
          (
            k,
            HashMap.get-insert s.hub.next_id id fresh_connection s.connections ∙ rw differs found,
            running,
          )
    ];
    watched = λ id k e reading.
        ground (
          arith,
          HashMap.get-insert s.hub.next_id id fresh_connection s.connections,
          v.watched id k,
        );
    aborted = λ id k e pinging.
        ground (
          arith,
          HashMap.get-insert s.hub.next_id id fresh_connection s.connections,
          v.aborted id k,
        );
  }

  end-IsAlive :
      (id : ℕ) (s : System j r) (h : Hub j r)
      → Shrinks j r s.hub h
      → IsAlive s
      → IsAlive (record {
        hub = unregister_client j r id h;
        connections = HashMap.modify id ended s.connections;
      })
  unfolding unregister_client step
  end-IsAlive id s h small v = record {
    ids = (step-Shrinks j r h (unregisters id) refl).ids (small.ids v.ids);
    known = λ k c e. elim (Bool-cases (id == k)) [
      | inl same ↦ absurd (ground (arith, HashMap.get-remove id k h.clients))
      | inr differs ↦
          let (c', e') =
            small.clients k c (sym (HashMap.get-remove id k h.clients ∙ rw differs) ∙ e) in
          let (q, found, running) = v.known k c' e' in
          (q, HashMap.get-modify id k ended s.connections ∙ rw differs found, running)
    ];
    watched = λ k q e reading.
        let (y, found, same) = modify-some id k ended s.connections q e in
        ground (arith, v.watched k y);
    aborted = λ k q e pinging.
        let (y, found, same) = modify-some id k ended s.connections q e in
        ground (arith, v.aborted k y);
  }

  signal-IsAlive :
      (id : ℕ) (s : System j r) (h : Hub j r)
      → Shrinks j r s.hub h
      → IsAlive s
      → IsAlive (record { hub = h; connections = HashMap.modify id gave_signal s.connections })
  signal-IsAlive id s h small v = record {
    ids = small.ids v.ids;
    known = λ k c e.
        let (c', e') = small.clients k c e in
        let (q, found, running) = v.known k c' e' in
        (
          (if id == k then gave_signal q else q),
          HashMap.get-modify id k gave_signal s.connections ∙ ground arith,
          ground arith,
        );
    watched = λ k q e reading.
        let (y, found, same) = modify-some id k gave_signal s.connections q e in
        ground (arith, v.watched k y);
    aborted = λ k q e pinging.
        let (y, found, same) = modify-some id k gave_signal s.connections q e in
        ground (arith, v.aborted k y);
  }

  read-IsAlive :
      (id : ℕ) (signal : Signal j.Text) (s : System j r)
      → IsAlive s
      → IsAlive (read j r id signal s)
  unfolding read
  read-IsAlive id signal s v = elim (Loop-cases (read_round j r id signal s.hub).0) [
    | inl again ↦
        rw (again, read)
          (shrunk-IsAlive s _
            (IsQuietRun-Shrinks j r s.hub _ (read_round-IsQuietRun j r id signal s.hub)) v)
    | inr over ↦
        rw (over, read)
          (end-IsAlive id s _
            (IsQuietRun-Shrinks j r s.hub _ (read_round-IsQuietRun j r id signal s.hub)) v)
  ]

  tick-IsAlive :
      (id ping_timeout now millis : ℕ) (s : System j r)
      → IsAlive s
      → IsAlive (tick j r id ping_timeout now millis s)
  unfolding tick
  tick-IsAlive id ping_timeout now millis s v =
      let small =
        IsQuietRun-Shrinks j r s.hub _
          (ping_tick-IsQuietRun j r id ping_timeout now millis s.hub) in
      elim (Loop-cases (ping_tick j r id ping_timeout now millis s.hub).0) [
        | inl again ↦ rw (again, tick) (shrunk-IsAlive s _ small v)
        | inr over ↦ rw (over, tick) (signal-IsAlive id s _ small v)
      ]

  Step-IsAlive : {s t : System j r} → Step j r s t → IsAlive s → IsAlive t
  Step-IsAlive {s} (accepts tx now lt) v = accept-IsAlive tx now s lt v
  Step-IsAlive {s} (reads id k signal found running heard) v = read-IsAlive id signal s v
  Step-IsAlive {s} (ticks id k ping_timeout now millis found running) v =
      tick-IsAlive id ping_timeout now millis s v
  Step-IsAlive {s} (serves op t) v =
      shrunk-IsAlive s _ (step-Shrinks j r s.hub op (IsTraffic-IsQuiet j r op t)) v

  pub start-IsAlive :
      (capacity : ℕ) (net : r.Net) (acks : r.Acks)
      → IsAlive (record { hub = new j r capacity net acks; connections = [] })
  unfolding new HashMap.get
  start-IsAlive capacity net acks = record {
    ids = new-HasIds j r capacity net acks;
    known = λ id c e. absurd (ground arith);
    watched = λ id k e reading. ground arith;
    aborted = λ id k e pinging. ground arith;
  }

  -- In every state that the server comes to, the hub's ids are in order and each client of the hub has
  -- a connection whose reader runs, so that nothing is sent to a connection that has ended. While a
  -- reader runs its ping task runs too or has signalled it, and no ping task outlives its reader. The
  -- ids do not wrap: a connection is accepted only while fewer than 2 ^ 64 are used.
  pub Reach-IsAlive :
      {capacity : ℕ} {net : r.Net} {acks : r.Acks} {s : System j r}
      → Reach j r capacity net acks s
      → IsAlive s
  Reach-IsAlive {capacity} {net} {acks} start = start-IsAlive capacity net acks
  Reach-IsAlive (later before st) = Step-IsAlive st (Reach-IsAlive before)
