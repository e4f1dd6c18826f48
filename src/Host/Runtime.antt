-- ===== src/Host/Runtime.antt =====
-- What the hub uses of the third-party crates tokio and uuid, as a parameter of the development: the
-- four kinds of channel, with their documented laws.
use infinity_wasm_bridge.Prelude.{
  ℕ, ◌≤◌, ◌<◌, length, String, ◌≡◌, ◌≢◌, Bool, true, false, List, [], ◌∷◌, ◌++◌,
}
use infinity_wasm_bridge.Wire.Json.{Json}
use infinity_wasm_bridge.Wire.Msg.{EventPayload, AckPayload}

-- What a receiver of a oneshot channel sees: no channel was made yet, nothing was sent yet, a value,
-- or that the sender was dropped.
pub data Poll {ℓ} (A : Type ℓ) : Type ℓ where
  unused waiting : Poll A
  value : A → Poll A
  dropped : Poll A

-- What a receiver of a broadcast channel gets: it has to wait, an event, or that it fell behind.
pub data Received {ℓ} (A : Type ℓ) : Type ℓ where
  nothing_yet : Received A
  received : A → Received A
  lagged : Received A

pub record Runtime (j : Json) : Type 1 where
  -- `mpsc::UnboundedSender<String>` and the state of all such channels. `queue` is what a channel
  -- has accepted, oldest first; a channel is open until its receiver is dropped.
  pub Sender : Type 0
  pub Net : Type 0
  pub send : Sender → j.Text → Net → Bool × Net
  pub is_open : Sender → Net → Bool
  pub queue : Sender → Net → List j.Text
  pub send-is_open : (tx : Sender) (t : j.Text) (n : Net) → (send tx t n).0 ≡ is_open tx n
  pub queue-send :
      (tx : Sender) (t : j.Text) (n : Net)
      → is_open tx n ≡ true
      → queue tx (send tx t n).1 ≡ queue tx n ++ t ∷ []
  pub send_closed :
      (tx : Sender) (t : j.Text) (n : Net) → is_open tx n ≡ false → (send tx t n).1 ≡ n
  pub queue-send_other :
      (tx other : Sender) (t : j.Text) (n : Net)
      → tx ≢ other
      → queue other (send tx t n).1 ≡ queue other n
  pub is_open-send :
      (tx other : Sender) (t : j.Text) (n : Net) → is_open other (send tx t n).1 ≡ is_open other n
  -- A send puts at most something at the end of a queue, and dropping the receiver closes its channel.
  pub queue-send_grows :
      (tx other : Sender) (t : j.Text) (n : Net)
      → (more : List j.Text) × (queue other (send tx t n).1 ≡ queue other n ++ more)
  pub close : Sender → Net → Net
  pub is_open-close : (tx : Sender) (n : Net) → is_open tx (close tx n) ≡ false
  pub is_open-close_other :
      (tx other : Sender) (n : Net) → tx ≢ other → is_open other (close tx n) ≡ is_open other n
  pub queue-close : (tx other : Sender) (n : Net) → queue other (close tx n) ≡ queue other n
  -- `oneshot`: a channel of which the hub holds the sender and the caller the receiver.
  pub Oneshot : Type 0
  pub Acks : Type 0
  pub channel : Acks → Oneshot × Acks
  pub resolve : Oneshot → AckPayload j.Value → Acks → Acks
  pub drop_sender : Oneshot → Acks → Acks
  pub poll : Oneshot → Acks → Poll (AckPayload j.Value)
  pub poll-unused : (a : Acks) → poll (channel a).0 a ≡ unused
  pub poll-channel : (a : Acks) → poll (channel a).0 (channel a).1 ≡ waiting
  pub poll-channel_other :
      (s : Oneshot) (a : Acks) → (channel a).0 ≢ s → poll s (channel a).1 ≡ poll s a
  pub poll-resolve :
      (s : Oneshot) (x : AckPayload j.Value) (a : Acks)
      → poll s a ≡ waiting
      → poll s (resolve s x a) ≡ value x
  pub poll-resolve_other :
      (s other : Oneshot) (x : AckPayload j.Value) (a : Acks)
      → s ≢ other
      → poll other (resolve s x a) ≡ poll other a
  -- Dropping a sender that has sent leaves the value with the receiver.
  pub poll-drop : (s : Oneshot) (a : Acks) → poll s a ≡ waiting → poll s (drop_sender s a) ≡ dropped
  pub poll-drop_other :
      (s other : Oneshot) (a : Acks) → s ≢ other → poll other (drop_sender s a) ≡ poll other a
  -- `watch`, `broadcast` and `Notify`.
  pub Watch : Type 0
  pub new_watch : Bool → Watch
  pub send_replace : Bool → Watch → Watch
  pub borrow : Watch → Bool
  pub borrow-new : (b : Bool) → borrow (new_watch b) ≡ b
  pub borrow-send_replace : (b : Bool) (w : Watch) → borrow (send_replace b w) ≡ b
  pub Broadcast : Type 0
  pub new_broadcast : ℕ → Broadcast
  pub publish : EventPayload j.Value → Broadcast → Broadcast
  -- What a subscriber has still to receive, oldest first, and how much of it the channel keeps: at
  -- least its capacity, which tokio rounds up.
  pub Subscriber : Type 0
  pub subscribe : Broadcast → Subscriber × Broadcast
  pub recv : Subscriber → Broadcast → Received (EventPayload j.Value) × Broadcast
  pub unread : Subscriber → Broadcast → List (EventPayload j.Value)
  pub kept : Broadcast → ℕ
  pub kept-new : (capacity : ℕ) → capacity ≤ kept (new_broadcast capacity)
  pub kept-publish : (e : EventPayload j.Value) (b : Broadcast) → kept (publish e b) ≡ kept b
  pub kept-subscribe : (b : Broadcast) → kept (subscribe b).1 ≡ kept b
  pub kept-recv : (s : Subscriber) (b : Broadcast) → kept (recv s b).1 ≡ kept b
  pub unread-subscribe : (b : Broadcast) → unread (subscribe b).0 (subscribe b).1 ≡ []
  pub unread-publish :
      (s : Subscriber) (e : EventPayload j.Value) (b : Broadcast)
      → unread s (publish e b) ≡ unread s b ++ e ∷ []
  pub recv-nothing :
      (s : Subscriber) (b : Broadcast) → unread s b ≡ [] → recv s b ≡ (nothing_yet, b)
  pub recv-received :
      (s : Subscriber) (b : Broadcast) (e : EventPayload j.Value) (es : List (EventPayload j.Value))
      → unread s b ≡ e ∷ es
      → length (e ∷ es) ≤ kept b
      → ((recv s b).0 ≡ received e) × (unread s (recv s b).1 ≡ es)
  pub recv-lagged :
      (s : Subscriber) (b : Broadcast) → kept b < length (unread s b) → (recv s b).0 ≡ lagged
  pub Notify : Type 0
  pub new_notify : Notify
  pub notify_waiters : Notify → Notify
  -- The future of `notified()`, which the next `notify_waiters` completes, and whether it is complete.
  pub Notified : Type 0
  pub notified : Notify → Notified
  pub is_notified : Notified → Notify → Bool
  pub is_notified-notified : (n : Notify) → is_notified (notified n) n ≡ false
  pub is_notified-notify : (n : Notify) → is_notified (notified n) (notify_waiters n) ≡ true
  pub is_notified-again :
      (f : Notified) (n : Notify) → is_notified f n ≡ true → is_notified f (notify_waiters n) ≡ true
  -- The text of a `Duration` under `{:?}`, which std does not fix.
  pub show_duration : ℕ → String
