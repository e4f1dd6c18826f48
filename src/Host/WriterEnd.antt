-- ===== src/Host/WriterEnd.antt =====
-- What the end of the writer task does to its connection (crates/infinity-bridge-host/src/server.rs).
use infinity_wasm_bridge.Prelude.{
  ℕ, ◌+◌, ◌≤◌, ◌<◌, ◌^◌, ◌≡◌, refl, ◌∙◌, Bool, true, false, List, [], ◌∷◌, arith, length, ltb, ◌-◌,
  is_empty, nat_eq, Option-cases, Bool-cases, inl, inr,
}
use infinity_wasm_bridge.Prelude.HashMap
use infinity_wasm_bridge.Wire.Json.{Json}
use infinity_wasm_bridge.Host.Runtime.{Runtime}
use infinity_wasm_bridge.Host.Hub.{Hub}
use infinity_wasm_bridge.Host.Frame.{SameClients}
use infinity_wasm_bridge.Host.Ids.{HasIds, step-HasIds, SameClients-HasIds}
use infinity_wasm_bridge.Host.Kept.{Holds, Holds-step}
use infinity_wasm_bridge.Host.Server.{gives_up, Loop-cases, ping_tick}
use infinity_wasm_bridge.Host.Reap.{survivor}
use infinity_wasm_bridge.Host.Connection.{answers_probe, ping_tick-gives_up}
use infinity_wasm_bridge.Host.Written.{turns-IsServed, new_writer-IsServed}
use infinity_wasm_bridge.Host.Writer.{
  Writer, new_writer, Turn, works, writes, hangs_up, waiting_texts, write_text, turn, turns,
}

module _ (j : Json) (r : Runtime j) (tx : r.Sender) where
  open j use {Text}

  write_text-SameClients :
      (texts : List Text) (accepts : Bool) (w : Writer Text) (h : Hub j r)
      → SameClients j r h (write_text j r tx texts accepts w h).1
  write_text-SameClients [] accepts w h = record {
    clients = refl;
    connection = refl;
    next_id = refl;
  }
  write_text-SameClients (text ∷ texts) false w h = record {
    clients = refl;
    connection = refl;
    next_id = refl;
  }
  write_text-SameClients (text ∷ texts) true w h = record {
    clients = refl;
    connection = refl;
    next_id = refl;
  }

  -- The ids are in order, and the client of the id, if there is one, has the channel.
  record IsHooked (id : ℕ) (h : Hub j r) : Type 0 where
    pub ids : HasIds j r h
    pub old : id < h.next_id
    pub ours : Holds j r (λ c. c.tx ≡ tx) (HashMap.get id h.clients)

  SameClients-IsHooked :
      (id : ℕ) (h h' : Hub j r) → SameClients j r h h' → IsHooked id h → IsHooked id h'
  SameClients-IsHooked id h h' same v = record {
    ids = SameClients-HasIds j r h h' same v.ids;
    old = omega (arith, v.old, same.next_id);
    ours = rw (same.clients) v.ours;
  }

  answers-shut :
      (id ping_timeout now : ℕ) (h : Hub j r)
      → r.is_open tx h.net ≡ false
      → Holds j r (λ c. c.tx ≡ tx) (HashMap.get id h.clients)
      → answers_probe j r id h.net (survivor j r ping_timeout now (HashMap.get id h.clients))
        ≡ gives_up
  answers-shut id ping_timeout now h shut ours = elim (Option-cases (HashMap.get id h.clients)) [
    | inl missing ↦ rw missing
    | inr (c, found) ↦
        let same : c.tx ≡ tx = rw found at ours in
        let closed : r.is_open c.tx h.net ≡ false = rw same shut in
        elim (Bool-cases (ltb ping_timeout (now - c.last_seen))) [
          | inl silent ↦ rw (found, silent)
          | inr heard ↦ rw (found, heard, closed)
        ]
  ]

  turn-IsHooked :
      (id : ℕ) (t : Turn j r) (s : Writer Text × Hub j r)
      → s.1.next_id + 1 < 2 ^ 64
      → IsHooked id s.1
      → IsHooked id (turn j r tx t s).1 × ((turn j r tx t s).1.next_id ≤ s.1.next_id + 1)
  unfolding turn
  turn-IsHooked id (works op) (w, h) few v =
      let (ids', low, high) = step-HasIds j r h op few v.ids in
      (
        record {
          ids = ids';
          old = omega (arith, v.old, low);
          ours =
              Holds-step j r (λ c. c.tx ≡ tx) id h op v.old
                (record { greeted = λ g c e. e; readied = λ b c e. e; touched = λ t same c e. e })
                v.ours;
        },
        high,
      )
  turn-IsHooked id (writes accepts) (w, h) few v = elim (Loop-cases w.loop) [
    | inr stopped ↦ rw (turn, stopped) (v, omega arith)
    | inl runs ↦
        let same = write_text-SameClients (waiting_texts j r tx w h) accepts w h in
        rw (turn, runs) (SameClients-IsHooked id h _ same v, omega (arith, same.next_id))
  ]
  turn-IsHooked id hangs_up (w, h) few v = elim (Loop-cases w.loop) [
    | inr stopped ↦ rw (turn, stopped) (v, omega arith)
    | inl runs ↦ elim (Bool-cases (is_empty (waiting_texts j r tx w h))) [
      | inl vacant ↦
          rw (turn, runs, vacant)
            (
              record {
                ids = record { unique = v.ids.unique; below = v.ids.below };
                old = v.old;
                ours = v.ours;
              },
              omega arith,
            )
      | inr more ↦ rw (turn, runs, more) (v, omega arith)
    ]
  ]

  turns-IsHooked :
      (id : ℕ) (ts : List (Turn j r)) (s : Writer Text × Hub j r)
      → s.1.next_id + length ts < 2 ^ 64
      → IsHooked id s.1
      → IsHooked id (turns j r tx ts s).1
  unfolding turns
  turns-IsHooked id [] s few v = v
  turns-IsHooked id (t ∷ ts) s few v =
      let (v', high) = turn-IsHooked id t s (omega arith) v in
      turns-IsHooked id ts (turn j r tx t s) (omega arith) v'

  -- A connection starts on an empty channel, which is that of its client, in a hub whose ids are in
  -- order. Once its writer has ended, as it does when the socket does not take a text, the next
  -- tick of its ping task gives the connection up, whatever happened in the hub and while fewer
  -- than 2 ^ 64 ids are used.
  pub ping_tick-turns :
      (id ping_timeout now millis : ℕ) (ts : List (Turn j r)) (h : Hub j r)
      → r.queue tx h.net ≡ []
      → HasIds j r h
      → id < h.next_id
      → Holds j r (λ c. c.tx ≡ tx) (HashMap.get id h.clients)
      → h.next_id + length ts < 2 ^ 64
      → let (w, h') = turns j r tx ts (new_writer, h) in
        w.loop ≡ gives_up → (ping_tick j r id ping_timeout now millis h').0 ≡ gives_up
  ping_tick-turns id ping_timeout now millis ts h vacant ids old ours few stopped =
      let (w, h') = turns j r tx ts (new_writer, h) in
      let shut =
        (turns-IsServed j r tx ts (new_writer, h) (new_writer-IsServed j r tx h vacant)).ended
          stopped in
      let v =
        turns-IsHooked id ts (new_writer, h) few (record { ids = ids; old = old; ours = ours }) in
      ping_tick-gives_up j r id ping_timeout now millis h' v.ids.unique
      ∙ answers-shut id ping_timeout now h' shut v.ours
