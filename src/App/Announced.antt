-- ===== src/App/Announced.antt =====
-- examples/host-app/src/main.rs with the fake gauge of examples/host-app/src/fake_gauge.rs: what the
-- demonstrations report.
use Prim.Native.String
use infinity_wasm_bridge.Prelude.{
  ℕ, String, ◌≡◌, refl, true, false, some, List, [], ◌∷◌, ◌∙◌, arith, nat_eq, nat_beq_iff, ok,
}
use infinity_wasm_bridge.Prelude.HashMap
use infinity_wasm_bridge.Wire.Json.{Json}
use infinity_wasm_bridge.Host.Runtime.{Runtime}
use infinity_wasm_bridge.Host.Hub.{
  Hub, Client, register_client, touch_client, set_client_hello, connected_clients,
}
use infinity_wasm_bridge.Host.Command.{begin}
use infinity_wasm_bridge.Host.Steps.{Op, registers, touches, greets, emits, step, run}
use infinity_wasm_bridge.Host.Slots.{HasSlots}
use infinity_wasm_bridge.Host.Pending.{step-HasSlots, run-HasSlots}
use infinity_wasm_bridge.Host.Returned.{command-returned}
use infinity_wasm_bridge.Host.Reachable.{SameReach-HasOne, HasOne-emits, emit-SameReach}
use infinity_wasm_bridge.Host.After.{command-HasSlots, command-SameReach, command-SameClients}
use infinity_wasm_bridge.Gauge.Fake.{greeting_payload}
use infinity_wasm_bridge.App.Demo.{
  Turn, Reports, expected, client_line, from_secs, no_payload, toggle_payload, config_payload,
  demonstrations, before_connect, equip_query, equip_cmd, config_updated, slow_command,
  nonexistent_command,
}
use infinity_wasm_bridge.App.Entries.{mock_listing, listing-mock, toggled, toggle_payload-idx}
use infinity_wasm_bridge.App.Answered.{
  IsServed, answered, result_of, answered-result, answered-IsServed,
}

module _ (j : Json) (r : Runtime j) where
  abbrev pub silent : String → Turn j r
  silent id = record { id = id; before = []; meanwhile = [] }

  -- A gauge connects and sends its greeting.
  abbrev pub connecting : ℕ → r.Sender → ℕ → String → List (Op j r)
  connecting client_id tx now session =
      registers tx now ∷ touches client_id now ∷ greets client_id (greeting_payload j session) ∷ []

  abbrev alone : r.Sender → ℕ → String → Client j r
  alone tx now session = record {
    tx = tx;
    greeting = some (greeting_payload j session);
    last_seen = now;
    ready = false;
  }

  module _ (me : ℕ) (tx : r.Sender) (now : ℕ) (session : String) (h : Hub j r)
      (mine : h.next_id ≡ me) (vacant : h.clients ≡ []) where
    abbrev joined : Hub j r
    joined = run j r h (connecting me tx now session)

    clients-connecting : joined.clients ≡ (me, alone tx now session) ∷ []
    unfolding run step register_client touch_client set_client_hello HashMap.insert HashMap.modify
    clients-connecting = rw (vacant, mine, (nat_beq_iff me me).1 refl) refl

    IsServed-connecting : HasSlots j r h → r.is_open tx h.net ≡ true → IsServed j r tx joined
    unfolding run step register_client touch_client set_client_hello
    IsServed-connecting v o = record {
      slots = run-HasSlots j r h (connecting me tx now session) v;
      one = record { channels = rw clients-connecting refl; opened = o };
    }

  IsServed-config_updated :
      (tx : r.Sender) (h : Hub j r) → IsServed j r tx h → IsServed j r tx (config_updated j r h).1
  unfolding config_updated step
  IsServed-config_updated tx h s = record {
    slots = step-HasSlots j r h (emits "config_updated" (config_payload j)) s.slots;
    one =
        SameReach-HasOne j r tx h _ (emit-SameReach j r "config_updated" (config_payload j) h)
          s.one;
  }

  module _ (id : String) (h : Hub j r) (v : HasSlots j r h) (vacant : h.clients ≡ []) where
    before_connect-expected :
        (before_connect j r (silent id) h).0 ≡ expected "no gauges connected — cannot send command"
    unfolding before_connect run begin
    before_connect-expected =
        let (result, _) =
          command-returned j r id (some "equip_query") (no_payload j) (from_secs 1) [] [] h v tt tt
            (rw vacant (omega arith)) in
        rw (result, vacant) refl

    before_connect-clients : (before_connect j r (silent id) h).1.clients ≡ []
    unfolding before_connect
    before_connect-clients =
        (command-SameClients j r id (some "equip_query") (no_payload j) (from_secs 1) h).clients
        ∙ vacant

    before_connect-next_id : (before_connect j r (silent id) h).1.next_id ≡ h.next_id
    unfolding before_connect
    before_connect-next_id =
        (command-SameClients j r id (some "equip_query") (no_payload j) (from_secs 1) h).next_id

    before_connect-HasSlots : HasSlots j r (before_connect j r (silent id) h).1
    unfolding before_connect
    before_connect-HasSlots =
        command-HasSlots j r id (some "equip_query") (no_payload j) (from_secs 1) [] [] h v

    before_connect-is_open :
        (tx : r.Sender) → r.is_open tx (before_connect j r (silent id) h).1.net ≡ r.is_open tx h.net
    unfolding before_connect
    before_connect-is_open tx =
        (command-SameReach j r id (some "equip_query") (no_payload j) (from_secs 1) [] [] h tt
            tt).opened
          tx

  module _ (a b c d e : String) (tx : r.Sender) (now : ℕ) (session : String) (h : Hub j r) where
    -- The run of `main` with a gauge that connects, greets and answers.
    abbrev pub shown : Reports j r
    shown =
        let me = h.next_id in
        (demonstrations j r (silent a) (connecting me tx now session)
          (answered j r me now b "equip_query" (no_payload j))
          (answered j r me now c "equip_cmd" (toggle_payload j))
          (answered j r me now d "slow_command" (no_payload j))
          (answered j r me now e "nonexistent_command" (no_payload j)) h).0

    -- The application starts without a gauge, and then the fake gauge connects on an open channel,
    -- greets it and answers its commands, and nothing else happens; the hub's pending commands wait
    -- on channels of their own. Each demonstration comes out as announced: NO_CLIENTS before the
    -- gauge is there, then the list of the one client, the ten entries of the equipment of which
    -- three are shown, the toggled entry 1, the event dispatched, a timeout for `slow_command`, and
    -- an application error for `nonexistent_command`.
    pub demonstrations-announced :
        HasSlots j r h
        → h.clients ≡ []
        → r.is_open tx h.net ≡ true
        → shown ≡ record {
          early = expected "no gauges connected — cannot send command";
          clients =
              client_line {V = j.Value}
                (record { id = h.next_id; greeting = some (greeting_payload j session) })
              ∷ [];
          equipment = ok (mock_listing j);
          toggle = ok (toggled j);
          config = ok tt;
          slow = expected (String.◌++◌ "no ack received within " (r.show_duration 500));
          nonexistent = expected "UNKNOWN_COMMAND: nonexistent_command";
        }
    unfolding demonstrations equip_query equip_cmd config_updated slow_command nonexistent_command
        connected_clients
    demonstrations-announced v vacant o =
        let me = h.next_id in
        let h1 = (before_connect j r (silent a) h).1 in
        let mine = before_connect-next_id a h v vacant in
        let none_yet = before_connect-clients a h v vacant in
        let h2 = run j r h1 (connecting me tx now session) in
        let s2 =
          IsServed-connecting me tx now session h1 mine none_yet
            (before_connect-HasSlots a h v vacant) (before_connect-is_open a h v vacant tx ∙ o) in
        let s3 =
          answered-IsServed j r me now b "equip_query" (no_payload j) (from_secs 3) tx h2 s2 in
        let h3 = result_of j r me now b "equip_query" (no_payload j) (from_secs 3) tx h2 s2 in
        let s4 =
          answered-IsServed j r me now c "equip_cmd" (toggle_payload j) (from_secs 3) tx h3.1 s3 in
        let h4 = result_of j r me now c "equip_cmd" (toggle_payload j) (from_secs 3) tx h3.1 s3 in
        let s5 = IsServed-config_updated tx h4.1 s4 in
        let h5 = config_updated j r h4.1 in
        let s6 = answered-IsServed j r me now d "slow_command" (no_payload j) 500 tx h5.1 s5 in
        let h6 = result_of j r me now d "slow_command" (no_payload j) 500 tx h5.1 s5 in
        rw
          (
            before_connect-expected a h v vacant,
            answered-result j r me now b "equip_query" (no_payload j) (from_secs 3) tx h2 s2,
            listing-mock j,
            answered-result j r me now c "equip_cmd" (toggle_payload j) (from_secs 3) tx h3.1 s3,
            toggle_payload-idx j,
            HasOne-emits j r tx h4.1 s4.one "config_updated" (config_payload j),
            answered-result j r me now d "slow_command" (no_payload j) 500 tx h5.1 s5,
            answered-result j r me now e "nonexistent_command" (no_payload j) (from_secs 3) tx h6.1
                s6,
            clients-connecting me tx now session h1 mine none_yet,
          )
          refl
