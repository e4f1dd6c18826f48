-- ===== src/Host/Writer.antt =====
-- The writer task of `handle_socket` (crates/infinity-bridge-host/src/server.rs), which takes the texts
-- of the channel of its connection and writes them to the socket, among the steps of the hub.
use infinity_wasm_bridge.Prelude.{
  Bool, List, [], ◌∷◌, ◌++◌, length, drop, if◌then◌else◌, is_empty, nat_eq,
}
use infinity_wasm_bridge.Wire.Json.{Json}
use infinity_wasm_bridge.Host.Runtime.{Runtime}
use infinity_wasm_bridge.Host.Hub.{Hub}
use infinity_wasm_bridge.Host.Steps.{Op, step}
use infinity_wasm_bridge.Host.Server.{Loop, goes_on, gives_up}

-- What the task has written, oldest first, and whether its loop goes round.
pub record Writer (Text : Type 0) : Type 0 where
  pub written : List Text
  pub loop : Loop

abbrev pub new_writer : {Text : Type 0} → Writer Text
new_writer = record { written = []; loop = goes_on }

-- A step of the hub, a round of the writer with whether the socket takes the text, or the round in
-- which `recv` yields nothing, since all is taken and no sender is left.
pub data Turn (j : Json) (r : Runtime j) : Type 0 where
  works : Op j r → Turn j r
  writes : Bool → Turn j r
  hangs_up : Turn j r

module _ (j : Json) (r : Runtime j) (tx : r.Sender) where
  open j use {Text}

  -- The end of the task drops the receiver of the channel.
  abbrev pub end_writer : Writer Text → Hub j r → Writer Text × Hub j r
  end_writer w h = (record w { loop = gives_up }, record h { net = r.close tx h.net })

  -- What `recv` has still to yield.
  abbrev pub waiting_texts : Writer Text → Hub j r → List Text
  waiting_texts w h = drop (length w.written) (r.queue tx h.net)

  abbrev pub write_text : List Text → Bool → Writer Text → Hub j r → Writer Text × Hub j r
  write_text [] accepts w h = (w, h)
  write_text (text ∷ texts) accepts w h =
      if accepts then (record w { written = w.written ++ text ∷ [] }, h) else end_writer w h

  -- A round that waits changes nothing, and neither does a task that has ended.
  unfoldable pub turn : Turn j r → Writer Text × Hub j r → Writer Text × Hub j r
  turn (works op) (w, h) = (w, step j r h op)
  turn (writes accepts) (w, h) = elim w.loop [
    | gives_up ↦ (w, h)
    | goes_on ↦ write_text (waiting_texts w h) accepts w h
  ]
  turn hangs_up (w, h) = elim w.loop [
    | gives_up ↦ (w, h)
    | goes_on ↦ if is_empty (waiting_texts w h) then end_writer w h else (w, h)
  ]

  unfoldable pub turns : List (Turn j r) → Writer Text × Hub j r → Writer Text × Hub j r
  turns [] s = s
  turns (t ∷ ts) s = turns ts (turn t s)
