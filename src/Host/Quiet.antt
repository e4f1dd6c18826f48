-- ===== src/Host/Quiet.antt =====
-- The steps that register no client: they keep the ids and make no client.
use mathlib.Core.Option
use infinity_wasm_bridge.Prelude.{
  ℕ, ◌≡◌, refl, Bool, false, Option, none, some, List, [], ◌∷◌, ◌∙◌, sym, ap, arith, All,
  if◌then◌else◌, nat_eq,
}
use infinity_wasm_bridge.Prelude.HashMap
use infinity_wasm_bridge.Wire.Json.{Json}
use infinity_wasm_bridge.Host.Runtime.{Runtime}
use infinity_wasm_bridge.Host.Hub.{
  Client, Hub, set_client_hello, unregister_client, touch_client, dead_ids, reap_dead_clients,
  set_client_ready,
}
use infinity_wasm_bridge.Host.Steps.{
  Op, registers, greets, unregisters, touches, reaps, readies, is_registration, step, run,
}
use infinity_wasm_bridge.Host.Frame.{step-SameClients}
use infinity_wasm_bridge.Host.Ids.{HasIds, step-HasIds_quiet}
use infinity_wasm_bridge.Host.Reap.{get-remove_all}

some_of_map {ℓ} :
    {A : Type ℓ} (f : A → A) (b : Bool) (o : Option A) (x : A)
    → (if b then Option.map f o else o) ≡ some x
    → (y : A) × (o ≡ some y)
some_of_map f b none x e = ground arith
some_of_map f b (some y) x e = (y, refl)

some_of_removed {ℓ} :
    {A : Type ℓ} (b : Bool) (o : Option A) (x : A) → (if b then none else o) ≡ some x → o ≡ some x
some_of_removed b o x e = ground arith

module _ (j : Json) (r : Runtime j) where
  abbrev pub IsQuiet : Op j r → Type 0
  IsQuiet op = is_registration j r op ≡ false

  -- The ids and the next id of `h` serve for `h'`, and each client of `h'` is one of `h`.
  pub record Shrinks (h h' : Hub j r) : Type 0 where
    pub ids : HasIds j r h → HasIds j r h'
    pub next_id : HasIds j r h → h'.next_id ≡ h.next_id
    pub clients :
        (id : ℕ) (c : Client j r)
        → HashMap.get id h'.clients ≡ some c
        → (c' : Client j r) × (HashMap.get id h.clients ≡ some c')

  clients-step :
      (h : Hub j r) (op : Op j r) (id : ℕ) (c : Client j r)
      → IsQuiet op
      → HashMap.get id (step j r h op).clients ≡ some c
      → (c' : Client j r) × (HashMap.get id h.clients ≡ some c')
  unfolding step set_client_hello unregister_client touch_client set_client_ready reap_dead_clients
  clients-step h (registers tx now) id c q e = cc
  clients-step h (greets k greeting) id c q e =
      some_of_map _ _ _ c (sym (HashMap.get-modify k id _ h.clients) ∙ e)
  clients-step h (unregisters k) id c q e =
      (c, some_of_removed _ _ c (sym (HashMap.get-remove k id h.clients) ∙ e))
  clients-step h (touches k now) id c q e =
      some_of_map _ _ _ c (sym (HashMap.get-modify k id _ h.clients) ∙ e)
  clients-step h (reaps timeout now) id c q e =
      let dead = dead_ids j r timeout now h.clients in
      (c, some_of_removed _ _ c (sym (get-remove_all j r dead h.clients id) ∙ e))
  clients-step h (readies k ready) id c q e =
      some_of_map _ _ _ c (sym (HashMap.get-modify k id _ h.clients) ∙ e)
  clients-step h op id c q e =
      (c, sym (ap (HashMap.get id) (step-SameClients j r h op tt).clients) ∙ e)

  pub step-Shrinks : (h : Hub j r) (op : Op j r) → IsQuiet op → Shrinks h (step j r h op)
  step-Shrinks h op q = record {
    ids = λ v. (step-HasIds_quiet j r h op q v).0;
    next_id = λ v. (step-HasIds_quiet j r h op q v).1;
    clients = λ id c e. clients-step h op id c q e;
  }

  pub run-Shrinks :
      (h : Hub j r) (ops : List (Op j r)) → All IsQuiet ops → Shrinks h (run j r h ops)
  unfolding run
  run-Shrinks h [] q = record { ids = λ v. v; next_id = λ v. refl; clients = λ id c e. (c, e) }
  run-Shrinks h (op ∷ ops) q =
      let one = step-Shrinks h op q.0 in
      let rest = run-Shrinks (step j r h op) ops q.1 in
      record {
        ids = λ v. rest.ids (one.ids v);
        next_id = λ v. rest.next_id (one.ids v) ∙ one.next_id v;
        clients = λ id c e. let (c', e') = rest.clients id c e in one.clients id c' e';
      }
