-- ===== src/Host/Waiting.antt =====
-- `wait_connected` of crates/infinity-bridge-host/src/hub.rs: a task that other tasks run between
-- each two looks of.
use infinity_wasm_bridge.Prelude.{
  ℕ, String, ◌≡◌, refl, true, false, List, [], ◌∷◌, ◌∙◌, ap, arith, any, if◌then◌else◌, Bool-cases,
  inl, inr,
}
use infinity_wasm_bridge.Wire.Json.{Json}
use infinity_wasm_bridge.Host.Runtime.{Runtime}
use infinity_wasm_bridge.Host.Hub.{
  Hub, register_client, set_client_hello, unregister_client, touch_client, reap_dead_clients,
  set_client_ready, dispatch_event, is_connected,
}
use infinity_wasm_bridge.Host.Send.{emit, send_to, broadcast}
use infinity_wasm_bridge.Host.Command.{begin, forget, deliver, finish, dispatch_ack}
use infinity_wasm_bridge.Host.Steps.{
  Op, registers, emits, sends, broadcasts, delivers, finishes, acknowledges, is_registration, step,
  run,
}

-- Where the task stands: before the test of the loop, after a test that found no client, at the wait
-- on a future, or at the end.
pub data Waiter (Notified : Type 0) : Type 0 where
  at_test : Waiter Notified
  saw_none : Waiter Notified
  at_wait : Notified → Waiter Notified
  returned : Waiter Notified

module _ (j : Json) (r : Runtime j) where
  open r use {Notified, notified, is_notified}

  -- The task goes on to its next stop.
  unfoldable pub wait_connected : Waiter Notified → Hub j r → Waiter Notified
  wait_connected at_test h = if is_connected j r h then returned else saw_none
  wait_connected saw_none h = at_wait (notified h.connect_notify)
  wait_connected (at_wait f) h = if is_notified f h.connect_notify then at_test else at_wait f
  wait_connected returned h = returned

  emit-notify :
      (n : String) (p : j.Value) (h : Hub j r)
      → (emit j r n p h).1.connect_notify ≡ h.connect_notify
  unfolding emit
  emit-notify n p h = ground arith

  send_to-notify :
      (id : ℕ) (t : j.Text) (h : Hub j r) → (send_to j r id t h).1.connect_notify ≡ h.connect_notify
  unfolding send_to
  send_to-notify id t h = ground arith

  broadcast-notify :
      (t : j.Text) (h : Hub j r) → (broadcast j r t h).1.connect_notify ≡ h.connect_notify
  unfolding broadcast
  broadcast-notify t h = ground arith

  deliver-notify :
      (id : String) (t : j.Text) (h : Hub j r)
      → (deliver j r id t h).1.connect_notify ≡ h.connect_notify
  unfolding deliver forget
  deliver-notify id t h = ground arith

  step-notify :
      (h : Hub j r) (op : Op j r)
      → is_registration j r op ≡ false
      → (step j r h op).connect_notify ≡ h.connect_notify
  unfolding step set_client_hello unregister_client touch_client reap_dead_clients set_client_ready
      dispatch_event begin finish forget dispatch_ack
  step-notify h (registers tx now) e = cc
  step-notify h (emits n p) e = emit-notify n p h
  step-notify h (sends id t) e = send_to-notify id t h
  step-notify h (broadcasts t) e = broadcast-notify t h
  step-notify h (delivers id t) e = deliver-notify id t h
  step-notify h (finishes id timeout waited) e = ground arith
  step-notify h (acknowledges a) e = ground arith
  step-notify h op e = refl

  is_notified-step :
      (f : Notified) (h : Hub j r) (op : Op j r)
      → is_notified f h.connect_notify ≡ true
      → is_notified f (step j r h op).connect_notify ≡ true
  unfolding step register_client
  is_notified-step f h (registers tx now) e = r.is_notified-again f h.connect_notify e
  is_notified-step f h op e = ap (is_notified f) (step-notify h op refl) ∙ e

  is_notified-run :
      (f : Notified) (h : Hub j r) (ops : List (Op j r))
      → is_notified f h.connect_notify ≡ true
      → is_notified f (run j r h ops).connect_notify ≡ true
  unfolding run
  is_notified-run f h [] e = e
  is_notified-run f h (op ∷ ops) e =
      is_notified-run f (step j r h op) ops (is_notified-step f h op e)

  notified-run :
      (n : r.Notify) (h : Hub j r) (ops : List (Op j r))
      → h.connect_notify ≡ n
      → is_notified (notified n) (run j r h ops).connect_notify ≡ any (is_registration j r) ops
  unfolding run step register_client
  notified-run n h [] e = rw e (r.is_notified-notified n)
  notified-run n h (registers tx now ∷ ops) e =
      is_notified-run (notified n) (register_client j r tx now h).1 ops
        (rw e (r.is_notified-notify n))
  notified-run n h (op ∷ ops) e = notified-run n (step j r h op) ops (step-notify h op refl ∙ e)

  -- A task that found no client begins to wait in the hub `h`. After other tasks have done `ops` it
  -- goes on only if these contain a registration, and then it returns exactly if a client is still
  -- there. Without a registration after `h` it goes on waiting, even if one came between its test and
  -- its wait and a client is there.
  pub wait_connected-run :
      (h : Hub j r) (ops : List (Op j r))
      → let waiting = wait_connected saw_none h in
        let h' = run j r h ops in
        wait_connected (wait_connected waiting h') h' ≡ (
          if any (is_registration j r) ops
          then if is_connected j r h' then returned else saw_none
          else waiting)
  unfolding wait_connected
  wait_connected-run h ops =
      let told = notified-run h.connect_notify h ops refl in
      elim (Bool-cases (any (is_registration j r) ops)) [
        | inl some_came ↦ rw (told, some_came)
        | inr none_came ↦ rw (told, none_came, wait_connected, told, none_came)
      ]
