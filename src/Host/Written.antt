-- ===== src/Host/Written.antt =====
-- What the writer task of a connection (crates/infinity-bridge-host/src/server.rs) writes.
use mathlib.Core.List.{append-nil, append_assoc}
use infinity_wasm_bridge.Prelude.{
  ℕ, zero, suc, ◌≤◌, ◌≡◌, sym, ap, ◌∙◌, Bool, true, false, List, [], ◌∷◌, ◌++◌, arith, length, drop,
  drop-length, is_empty, nat_eq, Bool-cases, inl, inr,
}
use infinity_wasm_bridge.Wire.Json.{Json}
use infinity_wasm_bridge.Host.Runtime.{Runtime}
use infinity_wasm_bridge.Host.Hub.{Hub}
use infinity_wasm_bridge.Host.Grows.{step-Grows}
use infinity_wasm_bridge.Host.Server.{goes_on, gives_up, Loop-cases}
use infinity_wasm_bridge.Host.Writer.{
  Writer, new_writer, Turn, works, writes, hangs_up, end_writer, waiting_texts, write_text, turn,
  turns,
}

module _ (j : Json) (r : Runtime j) (tx : r.Sender) where
  open j use {Text}

  -- What is written is the first part of what the channel accepted, and the channel of a writer that
  -- has ended is closed.
  pub record IsServed (s : Writer Text × Hub j r) : Type 0 where
    pub rest : List Text
    pub order : r.queue tx s.1.net ≡ s.0.written ++ rest
    pub ended : s.0.loop ≡ gives_up → r.is_open tx s.1.net ≡ false

  end_writer-IsServed :
      (w : Writer Text) (h : Hub j r) → IsServed (w, h) → IsServed (end_writer j r tx w h)
  end_writer-IsServed w h v = record {
    rest = v.rest;
    order = r.queue-close tx tx h.net ∙ v.order;
    ended = λ e. r.is_open-close tx h.net;
  }

  write_text-IsServed :
      (texts : List Text) (accepts : Bool) (w : Writer Text) (h : Hub j r)
      → r.queue tx h.net ≡ w.written ++ texts
      → w.loop ≡ goes_on
      → IsServed (w, h)
      → IsServed (write_text j r tx texts accepts w h)
  write_text-IsServed [] accepts w h q runs v = v
  write_text-IsServed (text ∷ texts) false w h q runs v = end_writer-IsServed w h v
  write_text-IsServed (text ∷ texts) true w h q runs v = record {
    rest = texts;
    order = q ∙ sym (append_assoc w.written (text ∷ []) texts);
    ended = λ e. v.ended e;
  }

  drop-written :
      (done : List Text) (h : Hub j r) (rest : List Text)
      → r.queue tx h.net ≡ done ++ rest
      → drop (length done) (r.queue tx h.net) ≡ rest
  drop-written done h rest q = ap (drop (length done)) q ∙ drop-length done rest

  turn-IsServed :
      (t : Turn j r) (s : Writer Text × Hub j r) → IsServed s → IsServed (turn j r tx t s)
  unfolding turn
  turn-IsServed (works op) (w, h) v =
      let grown = step-Grows j r tx h op in
      record {
        rest = v.rest ++ grown.more;
        order =
            grown.queue
            ∙ ap (λ q. q ++ grown.more) v.order
            ∙ append_assoc w.written v.rest grown.more;
        ended = λ e. grown.opened ∙ v.ended e;
      }
  turn-IsServed (writes accepts) (w, h) v = elim (Loop-cases w.loop) [
    | inr stopped ↦ rw (turn, stopped) v
    | inl runs ↦
        rw (turn, runs, drop-written w.written h v.rest v.order)
          (write_text-IsServed v.rest accepts w h v.order runs v)
  ]
  turn-IsServed hangs_up (w, h) v = elim (Loop-cases w.loop) [
    | inr stopped ↦ rw (turn, stopped) v
    | inl runs ↦ elim (Bool-cases (is_empty (waiting_texts j r tx w h))) [
      | inl vacant ↦ rw (turn, runs, vacant) (end_writer-IsServed w h v)
      | inr more ↦ rw (turn, runs, more) v
    ]
  ]

  pub turns-IsServed :
      (ts : List (Turn j r)) (s : Writer Text × Hub j r) → IsServed s → IsServed (turns j r tx ts s)
  unfolding turns
  turns-IsServed [] s v = v
  turns-IsServed (t ∷ ts) s v = turns-IsServed ts (turn j r tx t s) (turn-IsServed t s v)

  pub new_writer-IsServed : (h : Hub j r) → r.queue tx h.net ≡ [] → IsServed (new_writer, h)
  new_writer-IsServed h vacant = record { rest = []; order = vacant; ended = λ e. cc }

  -- A writer starts on an empty channel. Whatever the hub does in between, and whether or not the
  -- socket fails, what the task has written is the first part of what the channel has accepted, in
  -- that order, and once the task has ended, the channel is closed.
  pub queue-turns :
      (ts : List (Turn j r)) (h : Hub j r)
      → r.queue tx h.net ≡ []
      → let (w, h') = turns j r tx ts (new_writer, h) in
        ((rest : List Text) × (r.queue tx h'.net ≡ w.written ++ rest))
        × (w.loop ≡ gives_up → r.is_open tx h'.net ≡ false)
  queue-turns ts h vacant =
      let v = turns-IsServed ts (new_writer, h) (new_writer-IsServed h vacant) in
      ((v.rest, v.order), v.ended)

  -- The rounds of a socket that takes every text.
  abbrev pub accepted_rounds : ℕ → List (Turn j r)
  accepted_rounds zero = []
  accepted_rounds (suc n) = writes true ∷ accepted_rounds n

  -- A writer that goes on and has written the first part of the channel writes all the rest, if the
  -- socket takes every text: as many rounds as texts are left are enough, and the hub stays as it was.
  pub turns-accepted_rounds :
      (n : ℕ) (done rest : List Text) (h : Hub j r)
      → r.queue tx h.net ≡ done ++ rest
      → length rest ≤ n
      → turns j r tx (accepted_rounds n) (record { written = done; loop = goes_on }, h)
        ≡ (record { written = r.queue tx h.net; loop = goes_on }, h)
  unfolding turns turn
  turns-accepted_rounds zero done [] h q enough =
      λ i. (record { written = (sym (append-nil done) ∙ sym q) i; loop = goes_on }, h)
  turns-accepted_rounds zero done (text ∷ texts) h q enough = absurd (omega (arith, enough))
  turns-accepted_rounds (suc n) done [] h q enough =
      rw (turns, turn, drop-written done h [] q) (turns-accepted_rounds n done [] h q (omega arith))
  turns-accepted_rounds (suc n) done (text ∷ texts) h q enough =
      rw (turns, turn, drop-written done h (text ∷ texts) q)
        (turns-accepted_rounds n (done ++ text ∷ []) texts h
          (q ∙ sym (append_assoc done (text ∷ []) texts)) (omega arith))
