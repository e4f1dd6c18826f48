-- ===== src/Host/Targets.antt =====
-- The loops that send one text to many clients, `deliver_all` and `send_all`: whom they reach.
use mathlib.Core.Path.{subst}
use infinity_wasm_bridge.Prelude.{
  ℕ, ◌+◌, ◌<◌, ◌≤◌, ◌%◌, ◌^◌, ◌≡◌, refl, ◌≢◌, Bool, true, false, not, ◌&&◌, some, [], ◌∷◌, ◌++◌,
  ◌∙◌, sym, arith, length, any, All, if◌then◌else◌, nat_eq, ◌==◌, Bool-cases, eq_of_some-eq, inl,
  inr,
}
use infinity_wasm_bridge.Prelude.HashMap
use infinity_wasm_bridge.Wire.Json.{Json}
use infinity_wasm_bridge.Host.Runtime.{Runtime}
use infinity_wasm_bridge.Host.Hub.{Client, Clients}
use infinity_wasm_bridge.Host.Command.{is_skipped, deliver_all}

module _ (j : Json) (r : Runtime j) where
  open r use {Sender, Net, send, is_open, queue}

  -- Every connection has a channel of its own.
  abbrev pub HasOwnChannels : Clients j r → Type 0
  HasOwnChannels [] = Unit
  HasOwnChannels ((id, c) ∷ cs) = All (λ b. c.tx ≢ b.1.tx) cs × HasOwnChannels cs

  -- A client that is sent to and whose channel is open.
  abbrev pub is_reached : Bool → Net → Client j r → Bool
  is_reached known n c = not (is_skipped j r known c) && is_open c.tx n

  abbrev pub any_reached : Bool → Net → Clients j r → Bool
  any_reached known n cs = any (λ b. is_reached known n b.1) cs

  module _ (known : Bool) (text : j.Text) where
    -- One round of the loop on the channels.
    abbrev round : Client j r → Net → Net
    round c n = (if is_skipped j r known c then (false, n) else send c.tx text n).1

    is_open-round : (tx : Sender) (c : Client j r) (n : Net) → is_open tx (round c n) ≡ is_open tx n
    is_open-round tx c n = ground (arith, r.is_open-send c.tx tx text n)

    queue-round_self :
        (c : Client j r) (n : Net)
        → queue c.tx (round c n)
          ≡ (if is_reached known n c then queue c.tx n ++ text ∷ [] else queue c.tx n)
    queue-round_self c n = ground (arith, r.queue-send c.tx text n, r.send_closed c.tx text n)

    queue-round_other :
        (tx : Sender) (c : Client j r) (n : Net) → c.tx ≢ tx → queue tx (round c n) ≡ queue tx n
    queue-round_other tx c n h = ground (arith, r.queue-send_other c.tx tx text n h)

    any_reached-round :
        (c : Client j r) (cs : Clients j r) (n : Net)
        → any_reached known (round c n) cs ≡ any_reached known n cs
    any_reached-round c [] n = refl
    any_reached-round c ((id, d) ∷ cs) n = rw (is_open-round d.tx c n, any_reached-round c cs n)

    queue-deliver_all_other :
        (tx : Sender) (cs : Clients j r) (d : ℕ) (n : Net)
        → All (λ b. tx ≢ b.1.tx) cs
        → queue tx (deliver_all j r known text cs d n).1 ≡ queue tx n
    unfolding deliver_all
    queue-deliver_all_other tx [] d n a = refl
    queue-deliver_all_other tx ((id, c) ∷ cs) d n a =
        queue-deliver_all_other tx cs _ (round c n) a.1
        ∙ queue-round_other tx c n (λ e. a.0 (sym e))

    pub queue-deliver_all :
        (id : ℕ) (c : Client j r) (cs : Clients j r) (d : ℕ) (n : Net)
        → HasOwnChannels cs
        → HashMap.get id cs ≡ some c
        → queue c.tx (deliver_all j r known text cs d n).1
          ≡ (if is_reached known n c then queue c.tx n ++ text ∷ [] else queue c.tx n)
    unfolding deliver_all HashMap.get
    queue-deliver_all id c [] d n own e = cc
    queue-deliver_all id c ((i, b) ∷ cs) d n own e = elim (Bool-cases (◌==◌ {K = ℕ} i id)) [
      | inl same ↦
          let sent = (deliver_all j r known text ((i, b) ∷ cs) d n).1 in
          subst
            (λ (x : Client j r).
              queue x.tx sent
              ≡ (if is_reached known n x then queue x.tx n ++ text ∷ [] else queue x.tx n))
            (eq_of_some-eq (rw same at e))
            (queue-deliver_all_other b.tx cs _ (round b n) own.0 ∙ queue-round_self b n)
      | inr differ ↦
          let found = rw differ at e in
          let apart = HashMap.get-All (λ (x : Client j r). b.tx ≢ x.tx) id c cs own.0 found in
          queue-deliver_all id c cs _ (round b n) own.1 found
          ∙ rw (is_open-round c.tx b n, queue-round_other c.tx b n apart)
    ]

    accepted-round :
        (c : Client j r) (n : Net)
        → (if is_skipped j r known c then (false, n) else send c.tx text n).0 ≡ is_reached known n c
    accepted-round c n = ground (arith, r.send-is_open c.tx text n)

    deliver_all-cons :
        (id : ℕ) (c : Client j r) (cs : Clients j r) (d : ℕ) (n : Net)
        → deliver_all j r known text ((id, c) ∷ cs) d n
          ≡ deliver_all j r known text cs
              (if is_reached known n c then (d + 1) % 2 ^ 64 else d)
              (round c n)
    unfolding deliver_all
    deliver_all-cons id c cs d n = rw (← accepted-round c n)

    pub delivered-deliver_all :
        (cs : Clients j r) (d : ℕ) (n : Net)
        → d + length cs < 2 ^ 64
        → let d' = (deliver_all j r known text cs d n).0 in
          (d ≤ d')
          × (d' ≤ d + length cs)
          × (any_reached known n cs ≡ true → d < d')
          × (any_reached known n cs ≡ false → d' ≡ d)
    unfolding deliver_all
    delivered-deliver_all [] d n h = (omega arith, omega arith, λ e. cc, λ e. refl)
    delivered-deliver_all ((id, c) ∷ cs) d n h = elim (Bool-cases (is_reached known n c)) [
      | inl reached ↦
          let e : (d + 1) % 2 ^ 64 ≡ d + 1 = omega arith in
          let (low, high, _, _) = delivered-deliver_all cs (d + 1) (round c n) (omega arith) in
          rw (deliver_all-cons id c cs d n, reached, e)
            (omega arith, omega arith, λ _. omega arith, λ x. cc)
      | inr passed ↦
          let (low, high, more, same) = delivered-deliver_all cs d (round c n) (omega arith) in
          rw (deliver_all-cons id c cs d n, passed)
            (
              omega arith,
              omega arith,
              λ x. more (any_reached-round c cs n ∙ x),
              λ x. same (any_reached-round c cs n ∙ x),
            )
    ]
