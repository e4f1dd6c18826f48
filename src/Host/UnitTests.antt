-- ===== src/Host/UnitTests.antt =====
-- The tests of crates/infinity-bridge-host/src/hub.rs, each as the proposition that it asserts, on the
-- channels of Host.Sample: a receiver that has a message is a queue that is not empty, and `drop(rx)`
-- closes the channel.
use infinity_wasm_bridge.Prelude.{
  ℕ, ◌≡◌, refl, Bool, true, false, some, List, [], ◌∷◌, Result, err_part, Option,
}
use mathlib.Core.Option
use infinity_wasm_bridge.Prelude.HashMap
use infinity_wasm_bridge.Wire.Error.{ErrorKind, BridgeError, kind}
use infinity_wasm_bridge.Wire.Encode.{to_json}
use infinity_wasm_bridge.Wire.Sample.{Tree, nil, trees}
use infinity_wasm_bridge.Host.Hub.{
  Hub, new, register_client, set_client_ready, reap_dead_clients, dead_ids, remove_all,
  is_connected, is_ready,
}
use infinity_wasm_bridge.Host.Command.{begin, deliver_all, deliver, finish, forget, outcome}
use infinity_wasm_bridge.Host.Call.{command}
use infinity_wasm_bridge.Host.Steps.{Op, run}
use infinity_wasm_bridge.Host.Sample.{pipes, no_traffic, no_slots}

abbrev TestHub : Type 0
TestHub = Hub trees pipes

abbrev empty : TestHub
empty = new trees pipes 16 no_traffic no_slots

abbrev register : ℕ → TestHub → ℕ × TestHub
register tx h = register_client trees pipes tx 0 h

abbrev ping_command : List (Op trees pipes) → TestHub → Result BridgeError Tree × TestHub
ping_command meanwhile h = command trees pipes "id" (some "ping") nil 50 [] meanwhile h

abbrev has_message : ℕ → TestHub → Bool
has_message tx h = elim (h.net.queues tx) [ [] ↦ false | ◌∷◌ t ts ↦ true ]

abbrev error_kind : {A : Type 0} → Result BridgeError A → Option ErrorKind
error_kind r = Option.map kind (err_part r)

abbrev ReadinessIsTrackedPerClient : Type 0
ReadinessIsTrackedPerClient =
    let (a, h) = register 1 empty in
    let (b, h) = register 2 h in
    let ready = set_client_ready trees pipes a true h in
    let not_ready = set_client_ready trees pipes a false ready in
    (is_connected trees pipes h ≡ true)
    × (is_ready trees pipes h ≡ false)
    × (is_ready trees pipes ready ≡ true)
    × (is_ready trees pipes not_ready ≡ false)
    × (is_connected trees pipes not_ready ≡ true)

readiness_is_tracked_per_client : ReadinessIsTrackedPerClient
unfolding new register_client set_client_ready is_connected is_ready HashMap.insert HashMap.modify
readiness_is_tracked_per_client = (refl, refl, refl, refl, refl)

abbrev ACommandSkipsClientsThatAreNotReady : Type 0
ACommandSkipsClientsThatAreNotReady =
    let (stale, h) = register 1 empty in
    let (live, h) = register 2 h in
    let (result, h) = ping_command [] (set_client_ready trees pipes live true h) in
    (error_kind result ≡ some ErrorKind.timeout)
    × (has_message 2 h ≡ true)
    × (has_message 1 h ≡ false)

a_command_skips_clients_that_are_not_ready : ACommandSkipsClientsThatAreNotReady
unfolding new register_client set_client_ready HashMap.insert HashMap.modify HashMap.get command
    to_json begin deliver deliver_all finish forget outcome run
a_command_skips_clients_that_are_not_ready = (refl, refl, refl)

abbrev ACommandGoesEverywhereWhileReadinessIsUnknown : Type 0
ACommandGoesEverywhereWhileReadinessIsUnknown =
    let (a, h) = register 1 empty in
    let (b, h) = register 2 h in
    let (result, h) = ping_command [] h in (has_message 1 h ≡ true) × (has_message 2 h ≡ true)

a_command_goes_everywhere_while_readiness_is_unknown : ACommandGoesEverywhereWhileReadinessIsUnknown
unfolding new register_client HashMap.insert HashMap.get command to_json begin deliver deliver_all
    finish forget outcome run
a_command_goes_everywhere_while_readiness_is_unknown = (refl, refl)

-- The result does not wait for anything that other tasks do.
abbrev ACommandFailsFastWhenEveryConnectionIsGone : Type 0
ACommandFailsFastWhenEveryConnectionIsGone =
    let (id, h) = register 1 empty in
    (meanwhile : List (Op trees pipes))
    → error_kind (ping_command meanwhile (record h { net = pipes.close 1 h.net })).0
      ≡ some ErrorKind.transport

a_command_fails_fast_when_every_connection_is_gone : ACommandFailsFastWhenEveryConnectionIsGone
unfolding new register_client HashMap.insert HashMap.get command to_json begin deliver deliver_all
    forget run
a_command_fails_fast_when_every_connection_is_gone meanwhile = refl

abbrev ATimedOutCommandLeavesNoPendingEntry : Type 0
ATimedOutCommandLeavesNoPendingEntry =
    let (id, h) = register 1 empty in (ping_command [] h).1.pending ≡ []

a_timed_out_command_leaves_no_pending_entry : ATimedOutCommandLeavesNoPendingEntry
unfolding new register_client HashMap.insert HashMap.get HashMap.remove command to_json begin
    deliver deliver_all finish forget outcome run
a_timed_out_command_leaves_no_pending_entry = refl

abbrev ASilentClientIsReapedAndNamed : Type 0
ASilentClientIsReapedAndNamed =
    let (id, h) = register 1 empty in
    let (dead, h) = reap_dead_clients trees pipes 30 31 h in
    (dead ≡ id ∷ []) × (is_connected trees pipes h ≡ false)

a_silent_client_is_reaped_and_named : ASilentClientIsReapedAndNamed
unfolding new register_client HashMap.insert HashMap.remove reap_dead_clients dead_ids remove_all
    is_connected
a_silent_client_is_reaped_and_named = (refl, refl)
