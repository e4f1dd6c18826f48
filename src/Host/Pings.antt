-- ===== src/Host/Pings.antt =====
-- The loop of the ping task of `handle_socket` (crates/infinity-bridge-host/src/server.rs), with what
-- the other tasks do to the hub between its ticks.
use mathlib.Core.Path.{subst, sym, ◌∙◌}
use infinity_wasm_bridge.Prelude.{
  ℕ, ◌+◌, ◌*◌, ◌≤◌, ◌<◌, ◌^◌, ◌≡◌, ◌≢◌, List, [], ◌∷◌, arith, length, All, dec_lt, ltb, true, ◌-◌,
  nat_eq, inl, inr, Option-cases,
}
use infinity_wasm_bridge.Prelude.HashMap
use infinity_wasm_bridge.Wire.Json.{Json}
use infinity_wasm_bridge.Host.Runtime.{Runtime}
use infinity_wasm_bridge.Host.Hub.{Hub}
use infinity_wasm_bridge.Host.Steps.{Op, touches, step, run}
use infinity_wasm_bridge.Host.Server.{Loop, goes_on, gives_up, Loop-cases, ping_tick}
use infinity_wasm_bridge.Host.Ids.{HasIds, run-HasIds, step-HasIds_quiet}
use infinity_wasm_bridge.Host.Kept.{Holds, Keeps, Holds-run, Holds-step}
use infinity_wasm_bridge.Host.Reap.{survivor}
use infinity_wasm_bridge.Host.Connection.{answers_probe, ping_tick-gives_up}
use infinity_wasm_bridge.Host.Tasks.{
  IsProbing, IsProbing-IsQuiet, ping_tick-run, ping_tick-IsQuietRun, IsQuietRun-Shrinks,
}

-- One round of the loop: what runs while the task waits for the tick, by how much the tick is late,
-- and the time since the epoch when it comes.
pub record Round (j : Json) (r : Runtime j) : Type 0 where
  pub meanwhile : List (Op j r)
  pub late : ℕ
  pub millis : ℕ

module _ (j : Json) (r : Runtime j) (client_id ping_interval ping_timeout : ℕ) where
  -- A tick is due an interval after the last one was due.
  unfoldable pub ping_loop : ℕ → List (Round j r) → Hub j r → Loop × Hub j r
  ping_loop due [] h = (goes_on, h)
  ping_loop due (p ∷ rounds) h =
      let next = due + ping_interval in
      let (again, h') =
        ping_tick j r client_id ping_timeout (next + p.late) p.millis (run j r h p.meanwhile) in
      elim again [ goes_on ↦ ping_loop next rounds h' | gives_up ↦ (gives_up, h') ]

  -- The client was not heard after `seen`.
  abbrev IsSilentSince : ℕ → Hub j r → Type 0
  IsSilentSince seen h = Holds j r (λ c. c.last_seen ≤ seen) (HashMap.get client_id h.clients)

  -- The other tasks do not hear the client.
  abbrev pub IsUnheard : Op j r → Type 0
  IsUnheard op = (now : ℕ) → op ≢ touches client_id now

  -- How many steps the rounds run between the ticks.
  abbrev pub steps : List (Round j r) → ℕ
  steps [] = 0
  steps (p ∷ rounds) = length p.meanwhile + steps rounds

  IsUnheard-Keeps :
      (seen : ℕ) (ops : List (Op j r))
      → All IsUnheard ops
      → All (Keeps j r (λ c. c.last_seen ≤ seen) client_id) ops
  IsUnheard-Keeps seen [] u = tt
  IsUnheard-Keeps seen (op ∷ ops) u = (
    record {
      greeted = λ g c p. p;
      readied = λ b c p. p;
      touched = λ now e c p. absurd (u.0 now e);
    },
    IsUnheard-Keeps seen ops u.1,
  )

  probing-Keeps :
      (seen : ℕ) (op : Op j r) → IsProbing j r op → Keeps j r (λ c. c.last_seen ≤ seen) client_id op
  probing-Keeps seen op probing = record {
    greeted = λ g c p. p;
    readied = λ b c p. p;
    touched = λ now e c p. absurd (subst (IsProbing j r) e probing);
  }

  IsSilentSince-probing :
      (seen : ℕ) (h : Hub j r) (ops : List (Op j r))
      → client_id < h.next_id
      → HasIds j r h
      → All (IsProbing j r) ops
      → IsSilentSince seen h
      → IsSilentSince seen (run j r h ops)
  unfolding run
  IsSilentSince-probing seen h [] old ids probing v = v
  IsSilentSince-probing seen h (op ∷ ops) old ids probing v =
      let (ids', next) = step-HasIds_quiet j r h op (IsProbing-IsQuiet j r op probing.0) ids in
      IsSilentSince-probing seen (step j r h op) ops (omega arith) ids' probing.1 (
        Holds-step j r (λ c. c.last_seen ≤ seen) client_id h op old
          (probing-Keeps seen op probing.0) v)

  answers-overdue :
      (seen now : ℕ) (h : Hub j r)
      → seen + ping_timeout < now
      → IsSilentSince seen h
      → answers_probe j r client_id h.net
          (survivor j r ping_timeout now (HashMap.get client_id h.clients))
        ≡ gives_up
  answers-overdue seen now h overdue v = elim (Option-cases (HashMap.get client_id h.clients)) [
    | inl missing ↦ rw missing
    | inr (c, found) ↦
        let silent : ltb ping_timeout (now - c.last_seen) ≡ true =
          ground (arith, overdue, rw found at v) in
        rw (found, silent)
  ]

  goes_on-distinct : goes_on ≢ gives_up
  goes_on-distinct e = cc

  -- The ids of a hub are in order, an id stands below the next one, and its client, if there is
  -- one, was last heard at `seen` and is not heard again by any other task. Then the client's ping
  -- task ends: it goes on no longer than to the first tick that is due later than the timeout after
  -- `seen`, whatever else the other tasks do in between, while fewer than 2 ^ 64 ids are used.
  pub ping_loop-gives_up :
      (seen due : ℕ) (rounds : List (Round j r)) (h : Hub j r)
      → HasIds j r h
      → client_id < h.next_id
      → h.next_id + steps rounds < 2 ^ 64
      → IsSilentSince seen h
      → All (λ p. All IsUnheard p.meanwhile) rounds
      → due ≤ seen + ping_timeout
      → seen + ping_timeout < due + length rounds * ping_interval
      → (ping_loop due rounds h).0 ≡ gives_up
  unfolding ping_loop
  ping_loop-gives_up seen due [] h ids old few v unheard early overdue = absurd (omega arith)
  ping_loop-gives_up seen due (p ∷ rounds) h ids old few v unheard early overdue =
      let next = due + ping_interval in
      let before = run j r h p.meanwhile in
      let (ids', low, high) = run-HasIds j r h p.meanwhile (omega arith) ids in
      let silent =
        Holds-run j r (λ c. c.last_seen ≤ seen) client_id h p.meanwhile old ids (omega arith)
          (IsUnheard-Keeps seen p.meanwhile unheard.0) v in
      let (again, after) = ping_tick j r client_id ping_timeout (next + p.late) p.millis before in
      let (ops, probing, same) =
        ping_tick-run j r client_id ping_timeout (next + p.late) p.millis before in
      let small =
        IsQuietRun-Shrinks j r before after
          (ping_tick-IsQuietRun j r client_id ping_timeout (next + p.late) p.millis before) in
      elim (Loop-cases again) [
        | inr stops ↦ rw (stops, ping_loop)
        | inl still ↦
            let next_id : after.next_id ≡ before.next_id = small.next_id ids' in
            elim (dec_lt (seen + ping_timeout) next) [
              | yes overdue_now ↦
                  let stops =
                    ping_tick-gives_up j r client_id ping_timeout (next + p.late) p.millis before
                      ids'.unique
                    ∙ answers-overdue seen (next + p.late) before (omega arith) silent in
                  absurd (goes_on-distinct (sym still ∙ stops))
              | no early_still ↦
                  rw (still, ping_loop)
                    (ping_loop-gives_up seen next rounds after (small.ids ids') (omega arith)
                      (omega arith)
                      (rw same
                        (IsSilentSince-probing seen before ops (omega arith) ids' probing silent))
                      unheard.1 (omega arith) (omega arith))
            ]
      ]
