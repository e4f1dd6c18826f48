-- ===== src/App/Tests.antt =====
-- The demonstrations of the host application on a hub of its own, with the fake gauge.
use infinity_wasm_bridge.Prelude.{String, ◌≡◌, refl, [], ◌∷◌, ok, err}
use infinity_wasm_bridge.Prelude.Decimal.{show_u64}
use infinity_wasm_bridge.Wire.Error.{transport_error}
use infinity_wasm_bridge.Wire.Sample.{trees}
use infinity_wasm_bridge.Host.Hub.{Hub, new}
use infinity_wasm_bridge.Host.Steps.{run}
use infinity_wasm_bridge.Host.Pending.{new-HasSlots}
use infinity_wasm_bridge.Host.Sample.{pipes, no_traffic, no_slots}
use infinity_wasm_bridge.Host.BridgeServer
use infinity_wasm_bridge.App.Demo.{config, expected}
use infinity_wasm_bridge.App.Entries.{mock_listing, toggled}
use infinity_wasm_bridge.App.Announced.{shown, demonstrations-announced}

abbrev hub : Hub trees pipes
hub = new trees pipes config.event_capacity no_traffic no_slots

vacant : hub.clients ≡ []
unfolding new
vacant = refl

demonstrations-announced_example :
    shown trees pipes "a" "b" "c" "d" "e" 3 120 "test-7" hub ≡ record {
      early = expected "no gauges connected — cannot send command";
      clients = "id=1 client=fake-gauge, aircraft=DC-10-30, session=test-7" ∷ [];
      equipment = ok (mock_listing trees);
      toggle = ok (toggled trees);
      config = ok tt;
      slow = expected "no ack received within some time";
      nonexistent = expected "UNKNOWN_COMMAND: nonexistent_command";
    }
unfolding new run show_u64
demonstrations-announced_example =
    demonstrations-announced trees pipes "a" "b" "c" "d" "e" 3 120 "test-7" hub
      (new-HasSlots trees pipes config.event_capacity no_traffic no_slots []) vacant refl

-- The server starts where its address can be bound.
refuses :
    (BridgeServer.start trees pipes {Listener = String}
      (λ a. err "address in use")
      config
      no_traffic
      no_slots).0
    ≡ err (transport_error "bind failed: address in use")
unfolding BridgeServer.start
refuses = refl

routes :
    (BridgeServer.app config).routes
    ≡ ("/bridge", BridgeServer.ws_upgrade) ∷ ("/health", BridgeServer.health) ∷ []
routes = refl
