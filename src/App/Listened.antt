-- ===== src/App/Listened.antt =====
-- What the task of examples/host-app/src/main.rs that prints the events gets of them.
use mathlib.Core.List.{append-nil, append_assoc}
use infinity_wasm_bridge.Prelude.{
  ℕ, ◌≤◌, ◌<◌, ◌≡◌, refl, sym, ap, ◌∙◌, Bool, true, false, List, [], ◌∷◌, ◌++◌, arith, length,
  length-append, dec_lt,
}
use infinity_wasm_bridge.Wire.Json.{Json}
use infinity_wasm_bridge.Wire.Msg.{EventPayload}
use infinity_wasm_bridge.Host.Runtime.{Runtime}
use infinity_wasm_bridge.Host.Hub.{Hub, subscribe_events}
use infinity_wasm_bridge.Host.Steps.{Op, step}
use infinity_wasm_bridge.Host.Published.{published_by, publish_each, event_tx-step}
use infinity_wasm_bridge.App.Listener.{
  Listener, Turn, works, polls, State, handle_received, turn, turns, listen,
}

module _ (j : Json) (r : Runtime j) where
  open j use {Value}

  -- The events that the hub publishes in some turns.
  abbrev pub published : List (Turn j r) → List (EventPayload Value)
  published [] = []
  published (works op ∷ ts) = published_by j r op ++ published ts
  published (polls ∷ ts) = published ts

  module _ (events : r.Subscriber) where
    unread-publish_each :
        (es : List (EventPayload Value)) (b : r.Broadcast)
        → r.unread events (publish_each j r es b) ≡ r.unread events b ++ es
    unread-publish_each [] b = sym (append-nil (r.unread events b))
    unread-publish_each (e ∷ es) b =
        unread-publish_each es (r.publish e b)
        ∙ ap (λ u. u ++ es) (r.unread-publish events e b)
        ∙ append_assoc (r.unread events b) (e ∷ []) es

    kept-publish_each :
        (es : List (EventPayload Value)) (b : r.Broadcast)
        → r.kept (publish_each j r es b) ≡ r.kept b
    kept-publish_each [] b = refl
    kept-publish_each (e ∷ es) b = kept-publish_each es (r.publish e b) ∙ r.kept-publish e b

    -- Of the events `all` published so far, the first part is printed. While the task listens, the
    -- rest is unread; it listens if there are no more of them than the channel keeps.
    record Follows (room : ℕ) (all : List (EventPayload Value)) (s : State j r events)
        : Type 0 where
      pub rest : List (EventPayload Value)
      pub order : all ≡ s.0.printed ++ rest
      pub unread : s.0.listens ≡ true → r.unread events s.1.event_tx ≡ rest
      pub kept : r.kept s.1.event_tx ≡ room
      pub keeps_up : length all ≤ room → s.0.listens ≡ true

    works-Follows :
        (room : ℕ) (all : List (EventPayload Value)) (op : Op j r) (l : Listener Value)
        (h : Hub j r)
        → Follows room all (l, h)
        → Follows room (all ++ published_by j r op) (l, step j r h op)
    works-Follows room all op l h v =
        let es = published_by j r op in
        record {
          rest = v.rest ++ es;
          order = ap (λ a. a ++ es) v.order ∙ append_assoc l.printed v.rest es;
          unread = λ on.
              ap (r.unread events) (event_tx-step j r h op)
              ∙ unread-publish_each es h.event_tx
              ∙ ap (λ u. u ++ es) (v.unread on);
          kept = ap r.kept (event_tx-step j r h op) ∙ kept-publish_each es h.event_tx ∙ v.kept;
          keeps_up = λ few. v.keeps_up (omega (arith, few, length-append all es));
        }

    -- What `recv` gives a task that listens.
    recv-Follows :
        (room : ℕ) (all rest : List (EventPayload Value)) (l : Listener Value) (h : Hub j r)
        → all ≡ l.printed ++ rest
        → r.unread events h.event_tx ≡ rest
        → r.kept h.event_tx ≡ room
        → l.listens ≡ true
        → let (got, b) = r.recv events h.event_tx in
          Follows room all (handle_received j r events got l, record h { event_tx = b })
    recv-Follows room all [] l h order unread kept on =
        rw (r.recv-nothing events h.event_tx unread) (record {
          rest = [];
          order = order;
          unread = λ e. unread;
          kept = kept;
          keeps_up = λ few. on;
        })
    recv-Follows room all (e ∷ es) l h order unread kept on =
        elim (dec_lt (r.kept h.event_tx) (length (e ∷ es))) [
          | yes behind ↦
              let late = r.recv-lagged events h.event_tx (rw unread behind) in
              rw late (record {
                rest = e ∷ es;
                order = order;
                unread = λ off. cc;
                kept = r.kept-recv events h.event_tx ∙ kept;
                keeps_up = λ few. absurd (
                    omega (
                      arith,
                      few,
                      behind,
                      kept,
                      ap length order,
                      length-append l.printed (e ∷ es),
                    ));
              })
          | no fits ↦
              let (got, left) =
                r.recv-received events h.event_tx e es unread (omega (arith, fits)) in
              rw got (record {
                rest = es;
                order = order ∙ sym (append_assoc l.printed (e ∷ []) es);
                unread = λ e. left;
                kept = r.kept-recv events h.event_tx ∙ kept;
                keeps_up = λ few. on;
              })
        ]

    poll-Follows :
        (room : ℕ) (all printed : List (EventPayload Value)) (listens : Bool) (h : Hub j r)
        → let l : Listener Value = record { printed = printed; listens = listens } in
          Follows room all (l, h) → Follows room all (turn j r events polls (l, h))
    unfolding turn
    poll-Follows room all printed false h v = v
    poll-Follows room all printed true h v =
        recv-Follows room all v.rest (record { printed = printed; listens = true }) h v.order
          (v.unread refl) v.kept refl

    turn-Follows :
        (room : ℕ) (all : List (EventPayload Value)) (t : Turn j r) (s : State j r events)
        → Follows room all s
        → Follows room (all ++ published (t ∷ [])) (turn j r events t s)
    unfolding turn
    turn-Follows room all (works op) (l, h) v =
        rw (append-nil (published_by j r op)) (works-Follows room all op l h v)
    turn-Follows room all polls (l, h) v =
        rw (append-nil all) (poll-Follows room all l.printed l.listens h v)

    published-cons :
        (t : Turn j r) (ts : List (Turn j r))
        → published (t ∷ ts) ≡ published (t ∷ []) ++ published ts
    published-cons (works op) ts = ap (λ e. e ++ published ts) (sym (append-nil _))
    published-cons polls ts = refl

    turns-Follows :
        (room : ℕ) (all : List (EventPayload Value)) (ts : List (Turn j r)) (s : State j r events)
        → Follows room all s
        → Follows room (all ++ published ts) (turns j r events ts s)
    unfolding turns
    turns-Follows room all [] s v = rw (append-nil all) v
    turns-Follows room all (t ∷ ts) s v =
        rw (published-cons t ts, sym (append_assoc all (published (t ∷ [])) (published ts)))
          (turns-Follows room (all ++ published (t ∷ [])) ts (turn j r events t s)
            (turn-Follows room all t s v))

    stopped-turns :
        (ts : List (Turn j r)) (printed : List (EventPayload Value)) (h : Hub j r)
        → let l : Listener Value = record { printed = printed; listens = false } in
          (turns j r events ts (l, h)).0 ≡ l
    unfolding turns turn
    stopped-turns [] printed h = refl
    stopped-turns (works op ∷ ts) printed h = stopped-turns ts printed (step j r h op)
    stopped-turns (polls ∷ ts) printed h = stopped-turns ts printed h

    -- If more events are unread than the channel keeps, the next poll is the last: the task ends, and
    -- whatever is published afterwards, it prints nothing more.
    pub lagged-turns :
        (ts : List (Turn j r)) (l : Listener Value) (h : Hub j r)
        → r.kept h.event_tx < length (r.unread events h.event_tx)
        → l.listens ≡ true
        → (turns j r events (polls ∷ ts) (l, h)).0 ≡ record l { listens = false }
    unfolding turns turn
    lagged-turns ts l h behind on =
        rw (turns, turn, on, r.recv-lagged events h.event_tx behind)
          (stopped-turns ts l.printed (record h { event_tx = (r.recv events h.event_tx).1 }))

  -- A task that listens from a subscription on prints a first part of the events that the hub
  -- publishes from then on, each once and in their order. While no more of them were published than
  -- the channel keeps, it still listens, and all others wait for it.
  pub published-turns :
      (ts : List (Turn j r)) (h : Hub j r)
      → let (events, start, h0) = listen j r h in
        let (l, h') = turns j r events ts (start, h0) in
        (rest : List (EventPayload Value)) × (published ts ≡ l.printed ++ rest)
        × (length (published ts) ≤ r.kept h.event_tx
            → (l.listens ≡ true) × (r.unread events h'.event_tx ≡ rest))
  unfolding subscribe_events
  published-turns ts h =
      let (events, l, h') = listen j r h in
      let v =
        turns-Follows events (r.kept h.event_tx) [] ts (l, h')
          (record {
            rest = [];
            order = refl;
            unread = λ on. r.unread-subscribe h.event_tx;
            kept = r.kept-subscribe h.event_tx;
            keeps_up = λ few. refl;
          }) in
      (v.rest, v.order, λ few. (v.keeps_up few, v.unread (v.keeps_up few)))
