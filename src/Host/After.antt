-- ===== src/Host/After.antt =====
-- The hub that `command` of crates/infinity-bridge-host/src/hub.rs leaves, while only the readers of the
-- connections run beside it.
use infinity_wasm_bridge.Prelude.{ℕ, String, Option, List, [], ◌∙◌, All, inl, inr, Option-cases}
use infinity_wasm_bridge.Wire.Json.{Json}
use infinity_wasm_bridge.Wire.Msg.{cmd}
use infinity_wasm_bridge.Wire.RoundTrip.{from_json-to_json}
use infinity_wasm_bridge.Host.Runtime.{Runtime}
use infinity_wasm_bridge.Host.Hub.{Hub}
use infinity_wasm_bridge.Host.Command.{make_cmd, begin, deliver, finish}
use infinity_wasm_bridge.Host.Steps.{Op, run}
use infinity_wasm_bridge.Host.Slots.{HasSlots, begin-HasSlots, forget-HasSlots}
use infinity_wasm_bridge.Host.Pending.{run-HasSlots, deliver-HasSlots}
use infinity_wasm_bridge.Host.Frame.{SameClients, forget-SameClients, deliver-SameClients}
use infinity_wasm_bridge.Host.Call.{command}
use infinity_wasm_bridge.Host.Reachable.{
  SameReach, SameReach-trans, begin-SameReach, deliver-SameReach, forget-SameReach, run-SameReach,
  IsIncoming,
}

module _ (j : Json) (r : Runtime j) (id : String) (name : Option String) (payload : j.Value)
    (timeout : ℕ) (before meanwhile : List (Op j r)) (h : Hub j r) where
  pub command-HasSlots :
      HasSlots j r h → HasSlots j r (command j r id name payload timeout before meanwhile h).1
  unfolding command finish
  command-HasSlots v =
      let (message, printed, _) = from_json-to_json j (cmd (make_cmd j r id name payload)) tt in
      let begun = (begin j r id h).1 in
      let asked = run j r begun before in
      let (failure, sent) = deliver j r id message asked in
      let slots =
        deliver-HasSlots j r id message asked
          (run-HasSlots j r begun before (begin-HasSlots j r id h v)) in
      elim (Option-cases failure) [
        | inr (e, failed) ↦ rw (command, printed, failed) slots
        | inl waits ↦
            rw (command, printed, waits)
              (forget-HasSlots j r id (run j r sent meanwhile)
                (run-HasSlots j r sent meanwhile slots))
      ]

  pub command-SameReach :
      All (IsIncoming j r) before
      → All (IsIncoming j r) meanwhile
      → SameReach j r h (command j r id name payload timeout before meanwhile h).1
  unfolding command finish
  command-SameReach heard later =
      let (message, printed, _) = from_json-to_json j (cmd (make_cmd j r id name payload)) tt in
      let begun = (begin j r id h).1 in
      let asked = run j r begun before in
      let (failure, sent) = deliver j r id message asked in
      let to_asked =
        SameReach-trans j r h begun asked (begin-SameReach j r id h)
          (run-SameReach j r begun before heard) in
      let to_sent =
        SameReach-trans j r h asked sent to_asked (deliver-SameReach j r id message asked) in
      elim (Option-cases failure) [
        | inr (e, failed) ↦ rw (command, printed, failed) to_sent
        | inl waits ↦
            rw (command, printed, waits)
              (SameReach-trans j r h sent _ to_sent (
                SameReach-trans j r sent (run j r sent meanwhile) _
                  (run-SameReach j r sent meanwhile later)
                  (forget-SameReach j r id (run j r sent meanwhile))))
      ]

module _ (j : Json) (r : Runtime j) where
  -- A command beside which nothing runs.
  pub command-SameClients :
      (id : String) (name : Option String) (payload : j.Value) (timeout : ℕ) (h : Hub j r)
      → SameClients j r h (command j r id name payload timeout [] [] h).1
  unfolding command finish run begin
  command-SameClients id name payload timeout h =
      let (message, printed, _) = from_json-to_json j (cmd (make_cmd j r id name payload)) tt in
      let begun = (begin j r id h).1 in
      let (failure, sent) = deliver j r id message begun in
      let same = deliver-SameClients j r id message begun in
      let gone = forget-SameClients j r id sent in
      elim (Option-cases failure) [
        | inr (e, failed) ↦
            rw (command, printed, failed)
              (record {
                clients = same.clients;
                connection = same.connection;
                next_id = same.next_id;
              })
        | inl waits ↦
            rw (command, printed, waits)
              (record {
                clients = gone.clients ∙ same.clients;
                connection = gone.connection ∙ same.connection;
                next_id = gone.next_id ∙ same.next_id;
              })
      ]
