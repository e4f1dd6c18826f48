-- ===== src/Host/MachineTests.antt =====
-- A server with two connections, of which the ping task of the second reaps the first; and a task that
-- waits for a connection.
use infinity_wasm_bridge.Prelude.{
  ◌≡◌, refl, true, false, none, some, [], ◌∷◌, arith, ◌⊎◌, nat_eq, contains,
}
use infinity_wasm_bridge.Prelude.HashMap
use infinity_wasm_bridge.Wire.Sample.{trees}
use infinity_wasm_bridge.Wire.Encode.{to_json}
use infinity_wasm_bridge.Host.Send.{send_to}
use infinity_wasm_bridge.Host.Hub.{
  Hub, new, register_client, is_connected, reap_dead_clients, dead_ids, remove_all,
  connection_status,
}
use infinity_wasm_bridge.Host.Steps.{touches, run}
use infinity_wasm_bridge.Host.Server.{reaped, ping_tick}
use infinity_wasm_bridge.Host.Slots.{HasSlots}
use infinity_wasm_bridge.Host.Waiting.{saw_none, wait_connected, wait_connected-run}
use infinity_wasm_bridge.Host.Machine.{
  Connection, System, fresh_connection, accept, read, tick, Step, accepts, ticks, Reach, start,
  later,
}
use infinity_wasm_bridge.Host.Alive.{IsAlive, Reach-IsAlive}
use infinity_wasm_bridge.Host.Teardown.{Reach-reaped}
use infinity_wasm_bridge.Host.Served.{IsRun, Reach-HasSlots}
use infinity_wasm_bridge.Host.Sample.{pipes, no_traffic, no_slots}

abbrev empty : System trees pipes
empty = record { hub = new trees pipes 16 no_traffic no_slots; connections = [] }

abbrev one : System trees pipes
one = accept trees pipes 3 100 empty

abbrev two : System trees pipes
two = accept trees pipes 5 110 one

abbrev reaped_one : System trees pipes
reaped_one = tick trees pipes 2 30 135 7 two

two_reached : Reach trees pipes 16 no_traffic no_slots two
unfolding accept register_client new
two_reached = later (later start (accepts 3 100 (omega arith))) (accepts 5 110 (omega arith))

reaped_one_reached : Reach trees pipes 16 no_traffic no_slots reaped_one
unfolding accept register_client new HashMap.get HashMap.insert
reaped_one_reached = later two_reached (ticks 2 fresh_connection 30 135 7 refl refl)

first_reads : HashMap.get 1 reaped_one.connections ≡ some fresh_connection
unfolding accept register_client new HashMap.get HashMap.insert tick ping_tick reap_dead_clients
    contains dead_ids to_json send_to remove_all HashMap.remove
first_reads = refl

first_gone : HashMap.get 1 reaped_one.hub.clients ≡ none
unfolding accept register_client new HashMap.get HashMap.insert tick ping_tick reap_dead_clients
    contains dead_ids to_json send_to remove_all HashMap.remove
first_gone = refl

Reach-IsAlive_example : IsAlive trees pipes reaped_one
Reach-IsAlive_example = Reach-IsAlive trees pipes reaped_one_reached

reached_slots_are_apart :
    IsRun trees pipes (new trees pipes 16 no_traffic no_slots) reaped_one.hub
    × (connection_status trees pipes reaped_one.hub ≡ is_connected trees pipes reaped_one.hub)
    × HasSlots trees pipes reaped_one.hub
reached_slots_are_apart = Reach-HasSlots trees pipes reaped_one_reached

Reach-reaped_example :
    (t : System trees pipes) × ((t ≡ reaped_one) ⊎ (t ≡ tick trees pipes 1 30 136 8 reaped_one))
    × Reach trees pipes 16 no_traffic no_slots t
    × Step trees pipes t (read trees pipes 1 reaped t)
    × (k' : Connection) × (HashMap.get 1 (read trees pipes 1 reaped t).connections ≡ some k')
    × (k'.reads ≡ false)
Reach-reaped_example =
    Reach-reaped trees pipes 1 fresh_connection 30 136 8 reaped_one_reached first_reads refl
      first_gone

-- A client registers between the test and the wait: the task waits although a client is there.
abbrev missed : Hub trees pipes
missed = (register_client trees pipes 3 100 (new trees pipes 16 no_traffic no_slots)).1

missed_connected : is_connected trees pipes missed ≡ true
unfolding is_connected register_client new HashMap.insert
missed_connected = refl

wait_connected-run_example :
    let waiting = wait_connected trees pipes saw_none missed in
    let h' = run trees pipes missed (touches 1 110 ∷ []) in
    wait_connected trees pipes (wait_connected trees pipes waiting h') h' ≡ waiting
wait_connected-run_example = wait_connected-run trees pipes missed (touches 1 110 ∷ [])
