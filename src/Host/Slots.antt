-- ===== src/Host/Slots.antt =====
-- The pending commands: the oneshot channels that `command` and `dispatch_ack` of
-- crates/infinity-bridge-host/src/hub.rs share.
use infinity_wasm_bridge.Prelude.{
  String, ◌≡◌, ◌≢◌, some, List, ◌∙◌, sym, arith, string_eq, ◌==◌, Bool-cases, inl, inr,
  eq_of_some-eq, Option-cases, ◌⊎◌,
}
use infinity_wasm_bridge.Prelude.HashMap
use infinity_wasm_bridge.Wire.Json.{Json}
use infinity_wasm_bridge.Wire.Msg.{AckPayload}
use infinity_wasm_bridge.Host.Runtime.{Runtime, waiting}
use infinity_wasm_bridge.Host.Hub.{Hub}
use infinity_wasm_bridge.Host.Command.{begin, forget, dispatch_ack}

module _ (j : Json) (r : Runtime j) where
  open r use {Oneshot, Acks, poll}

  -- The channel of a pending command waits, and no two commands share one.
  pub record HasSlots (h : Hub j r) : Type 0 where
    pub waits :
        (id : String) (s : Oneshot) → HashMap.get id h.pending ≡ some s → poll s h.acks ≡ waiting
    pub apart :
        (id other : String) (s : Oneshot)
        → HashMap.get id h.pending ≡ some s
        → HashMap.get other h.pending ≡ some s
        → id ≡ other

  pub record SameSlots (h h' : Hub j r) : Type 0 where
    pub pending : h'.pending ≡ h.pending
    pub acks : h'.acks ≡ h.acks

  -- A channel that holds a value or is dropped is not that of a pending command.
  pub distinct :
      (h : Hub j r) (id : String) (s t : Oneshot)
      → HasSlots h
      → HashMap.get id h.pending ≡ some s
      → poll t h.acks ≢ waiting
      → s ≢ t
  distinct h id s t v found p e = p (rw (← e) (v.waits id s found))

  get-remove-some :
      (id k : String) (m : List (String × Oneshot)) (t : Oneshot)
      → HashMap.get k (HashMap.remove id m) ≡ some t
      → (id ≢ k) × (HashMap.get k m ≡ some t)
  get-remove-some id k m t e = ground (arith, HashMap.get-remove id k m, string_eq.equal_iff id k)

  get-insert-some :
      (id k : String) (s t : Oneshot) (m : List (String × Oneshot))
      → HashMap.get k (HashMap.insert id s m) ≡ some t
      → ((id ≡ k) × (s ≡ t)) ⊎ ((id ≢ k) × (HashMap.get k m ≡ some t))
  get-insert-some id k s t m e = elim (Bool-cases (id == k)) [
    | inl same ↦ inl (
      (string_eq.equal_iff id k).0 same,
      eq_of_some-eq (sym (HashMap.get-insert id k s m ∙ rw same) ∙ e),
    )
    | inr differs ↦ inr (
      ground (arith, string_eq.equal_iff id k),
      sym (HashMap.get-insert id k s m ∙ rw differs) ∙ e,
    )
  ]

  -- An entry is taken out, and what is done to its channel changes no other.
  taken-HasSlots :
      (id : String) (s : Oneshot) (h : Hub j r) (acks : Acks)
      → HasSlots h
      → HashMap.get id h.pending ≡ some s
      → ((t : Oneshot) → s ≢ t → poll t acks ≡ poll t h.acks)
      → HasSlots (record h { pending = HashMap.remove id h.pending; acks = acks })
  taken-HasSlots id s h acks v found keeps = record {
    waits = λ k t e.
        let (differs, kept) = get-remove-some id k h.pending t e in
        let apart = λ (same : s ≡ t). differs (v.apart id k t (rw same at found) kept) in
        keeps t apart ∙ v.waits k t kept;
    apart = λ k l t e f.
        v.apart k l t (get-remove-some id k h.pending t e).1 (get-remove-some id l h.pending t f).1;
  }

  pub forget-HasSlots : (id : String) (h : Hub j r) → HasSlots h → HasSlots (forget j r id h)
  unfolding forget
  forget-HasSlots id h v = elim (Option-cases (HashMap.get id h.pending)) [
    | inl missing ↦ rw (forget, missing) v
    | inr (s, found) ↦
        rw (forget, found)
          (taken-HasSlots id s h _ v found (λ t apart. r.poll-drop_other s t h.acks apart))
  ]

  pub dispatch_ack-HasSlots :
      (a : AckPayload j.Value) (h : Hub j r) → HasSlots h → HasSlots (dispatch_ack j r a h)
  unfolding dispatch_ack
  dispatch_ack-HasSlots a h v = elim (Option-cases (HashMap.get a.id h.pending)) [
    | inl missing ↦ rw (dispatch_ack, missing) v
    | inr (s, found) ↦
        rw (dispatch_ack, found)
          (taken-HasSlots a.id s h _ v found (λ t apart. r.poll-resolve_other s t a h.acks apart))
  ]

  -- An entry with a new channel is put in.
  inserted-HasSlots :
      (id : String) (s : Oneshot) (h : Hub j r) (acks : Acks)
      → HasSlots h
      → poll s h.acks ≢ waiting
      → poll s acks ≡ waiting
      → ((k : String) (t : Oneshot)
          → id ≢ k
          → HashMap.get k h.pending ≡ some t
          → poll t acks ≡ waiting)
      → HasSlots (record h { pending = HashMap.insert id s h.pending; acks = acks })
  inserted-HasSlots id s h acks v fresh opened keeps = record {
    waits = λ k t e. elim (get-insert-some id k s t h.pending e) [
      | inl (_, same) ↦ rw (← same) opened
      | inr (differs, kept) ↦ keeps k t differs kept
    ];
    apart = λ k l t e f. elim (get-insert-some id k s t h.pending e) [
      | inl (here, same) ↦ elim (get-insert-some id l s t h.pending f) [
        | inl (there, _) ↦ sym here ∙ there
        | inr (_, kept) ↦ absurd (distinct h l t s v kept fresh (sym same))
      ]
      | inr (_, kept) ↦ elim (get-insert-some id l s t h.pending f) [
        | inl (there, same) ↦ absurd (distinct h k t s v kept fresh (sym same))
        | inr (_, kept') ↦ v.apart k l t kept kept'
      ]
    ];
  }

  pub channel_fresh : (a : Acks) → poll (r.channel a).0 a ≢ waiting
  channel_fresh a e = ground (arith, r.poll-unused a)

  pub begin-HasSlots : (id : String) (h : Hub j r) → HasSlots h → HasSlots (begin j r id h).1
  unfolding begin
  begin-HasSlots id h v =
      let (s, a) = r.channel h.acks in
      let fresh = channel_fresh h.acks in
      let keeps : (k : String) (t : Oneshot)
          → HashMap.get k h.pending ≡ some t
          → poll t a ≡ waiting =
        λ k t e.
          r.poll-channel_other t h.acks (λ same. distinct h k t s v e fresh (sym same))
          ∙ v.waits k t e in
      elim (Option-cases (HashMap.get id h.pending)) [
        | inl missing ↦
            rw (begin, missing)
              (inserted-HasSlots id s h a v fresh (r.poll-channel h.acks)
                (λ k t differs e. keeps k t e))
        | inr (old, found) ↦
            rw (begin, found)
              (inserted-HasSlots id s h (r.drop_sender old a) v fresh
                (r.poll-drop_other old s a (distinct h id old s v found fresh)
                  ∙ r.poll-channel h.acks)
                (λ k t differs e.
                  r.poll-drop_other old t a (λ same. differs (v.apart id k t (rw same at found) e))
                  ∙ keeps k t e))
      ]
