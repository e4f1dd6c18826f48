-- ===== src/Host/Sample.antt =====
-- Channels that meet the laws of `Runtime`, for the examples: sender and oneshot are numbers.
use mathlib.Core.List.{append-nil}
use infinity_wasm_bridge.Prelude.{
  ℕ, ◌+◌, ◌≤◌, ◌<◌, length, ◌≡◌, refl, ◌≢◌, Bool, true, false, List, [], ◌∷◌, ◌++◌, arith, ltb,
  if◌then◌else◌, nat_eq, nat_beq,
}
use infinity_wasm_bridge.Wire.Msg.{AckPayload, EventPayload}
use infinity_wasm_bridge.Wire.Sample.{Tree, Printed, trees}
use infinity_wasm_bridge.Host.Runtime.{
  Runtime, Poll, unused, waiting, value, dropped, Received, nothing_yet, received, lagged,
}

pub record Pipes : Type 0 where
  pub opened : ℕ → Bool
  pub queues : ℕ → List Printed

abbrev pub put : ℕ → Printed → Pipes → Pipes
put tx t n = record n { queues = λ k. if nat_beq k tx then n.queues k ++ t ∷ [] else n.queues k }

abbrev pub push : ℕ → Printed → Pipes → Bool × Pipes
push tx t n = (n.opened tx, if n.opened tx then put tx t n else n)

pub record Slots : Type 0 where
  pub made : ℕ
  pub polls : ℕ → Poll (AckPayload Tree)

abbrev pub look : ℕ → Slots → Poll (AckPayload Tree)
look s a = if ltb s a.made then a.polls s else unused

abbrev pub write : ℕ → Poll (AckPayload Tree) → Slots → Slots
write s p a = record a { polls = λ k. if nat_beq k s then p else a.polls k }

abbrev pub make : Slots → ℕ × Slots
make a = (a.made, record (write a.made waiting a) { made = a.made + 1 })

abbrev pub after_drop : Poll (AckPayload Tree) → Poll (AckPayload Tree)
after_drop waiting = dropped
after_drop p = p

abbrev pub drop_slot : ℕ → Slots → Slots
drop_slot s a = write s (after_drop (a.polls s)) a

pub queue-push :
    (tx : ℕ) (t : Printed) (n : Pipes)
    → n.opened tx ≡ true
    → (push tx t n).1.queues tx ≡ n.queues tx ++ t ∷ []
queue-push tx t n h = ground arith

pub push_closed : (tx : ℕ) (t : Printed) (n : Pipes) → n.opened tx ≡ false → (push tx t n).1 ≡ n
push_closed tx t n h = ground arith

pub queue-push_other :
    (tx other : ℕ) (t : Printed) (n : Pipes)
    → tx ≢ other
    → (push tx t n).1.queues other ≡ n.queues other
queue-push_other tx other t n h = ground arith

pub opened-push :
    (tx other : ℕ) (t : Printed) (n : Pipes) → (push tx t n).1.opened other ≡ n.opened other
opened-push tx other t n = ground arith

pub look-unused : (a : Slots) → look a.made a ≡ unused
look-unused a = ground arith

pub look-make : (a : Slots) → look a.made (make a).1 ≡ waiting
look-make a = ground arith

pub look-make_other : (s : ℕ) (a : Slots) → a.made ≢ s → look s (make a).1 ≡ look s a
look-make_other s a h = ground arith

pub look-write :
    (s : ℕ) (x : AckPayload Tree) (a : Slots)
    → look s a ≡ waiting
    → look s (write s (value x) a) ≡ value x
look-write s x a h = ground arith

pub look-write_other :
    (s other : ℕ) (p : Poll (AckPayload Tree)) (a : Slots)
    → s ≢ other
    → look other (write s p a) ≡ look other a
look-write_other s other p a h = ground arith

pub look-drop : (s : ℕ) (a : Slots) → look s a ≡ waiting → look s (drop_slot s a) ≡ dropped
look-drop s a h = ground arith

pub ltb_self : (n : ℕ) → ltb n n ≡ false
ltb_self n = ground arith

pub ltb-suc : (n : ℕ) → ltb n (n + 1) ≡ true
ltb-suc n = ground arith

pub ltb-suc_of_ltb : (f n : ℕ) → ltb f n ≡ true → ltb f (n + 1) ≡ true
ltb-suc_of_ltb f n h = ground arith

pub queue-push_grows :
    (tx other : ℕ) (t : Printed) (n : Pipes)
    → (more : List Printed) × ((push tx t n).1.queues other ≡ n.queues other ++ more)
queue-push_grows tx other t n = (
  (if n.opened tx then if nat_beq other tx then t ∷ [] else [] else []),
  ground (arith, append-nil (n.queues other)),
)

abbrev pub shut : ℕ → Pipes → Pipes
shut tx n = record n { opened = λ k. if nat_beq k tx then false else n.opened k }

pub opened-shut : (tx : ℕ) (n : Pipes) → (shut tx n).opened tx ≡ false
opened-shut tx n = ground arith

pub opened-shut_other :
    (tx other : ℕ) (n : Pipes) → tx ≢ other → (shut tx n).opened other ≡ n.opened other
opened-shut_other tx other n h = ground arith

-- A broadcast channel keeps for each subscriber what it has not received.
pub record Topic : Type 0 where
  pub subscribers : ℕ
  pub left : ℕ → List (EventPayload Tree)
  pub keeps : ℕ

abbrev pub join : Topic → ℕ × Topic
join b = (
  b.subscribers,
  record b {
    subscribers = b.subscribers + 1;
    left = λ k. if nat_beq k b.subscribers then [] else b.left k;
  },
)

abbrev pub set_left : ℕ → List (EventPayload Tree) → Topic → Topic
set_left s es b = record b { left = λ k. if nat_beq k s then es else b.left k }

abbrev pub take_next : ℕ → List (EventPayload Tree) → Topic → Received (EventPayload Tree) × Topic
take_next s [] b = (nothing_yet, b)
take_next s (e ∷ es) b =
    if ltb b.keeps (length (e ∷ es))
    then (lagged, set_left s es b)
    else (received e, set_left s es b)

pub left-join : (b : Topic) → (join b).1.left (join b).0 ≡ []
left-join b = ground arith

pub take_next-nothing :
    (s : ℕ) (b : Topic) → b.left s ≡ [] → take_next s (b.left s) b ≡ (nothing_yet, b)
take_next-nothing s b e = rw e refl

pub keeps-take_next :
    (s : ℕ) (es : List (EventPayload Tree)) (b : Topic) → (take_next s es b).1.keeps ≡ b.keeps
keeps-take_next s [] b = refl
keeps-take_next s (e ∷ es) b = ground arith

pub take_next-received :
    (s : ℕ) (b : Topic) (e : EventPayload Tree) (es : List (EventPayload Tree))
    → b.left s ≡ e ∷ es
    → length (e ∷ es) ≤ b.keeps
    → ((take_next s (b.left s) b).0 ≡ received e) × ((take_next s (b.left s) b).1.left s ≡ es)
take_next-received s b e es found few = rw found (ground arith)

pub take_next-lagged :
    (s : ℕ) (es : List (EventPayload Tree)) (b : Topic)
    → b.keeps < length es
    → (take_next s es b).0 ≡ lagged
take_next-lagged s [] b h = ground arith
take_next-lagged s (e ∷ es) b h = ground arith

abbrev pub pipes : Runtime trees
pipes = record {
  Sender = ℕ;
  Net = Pipes;
  send = push;
  is_open = λ tx n. n.opened tx;
  queue = λ tx n. n.queues tx;
  send-is_open = λ tx t n. refl;
  queue-send = queue-push;
  send_closed = push_closed;
  queue-send_other = queue-push_other;
  is_open-send = opened-push;
  queue-send_grows = queue-push_grows;
  close = shut;
  is_open-close = opened-shut;
  is_open-close_other = opened-shut_other;
  queue-close = λ tx other n. refl;
  Oneshot = ℕ;
  Acks = Slots;
  channel = make;
  resolve = λ s x a. write s (value x) a;
  drop_sender = drop_slot;
  poll = look;
  poll-unused = look-unused;
  poll-channel = look-make;
  poll-channel_other = look-make_other;
  poll-resolve = look-write;
  poll-resolve_other = λ s other x a h. look-write_other s other (value x) a h;
  poll-drop = look-drop;
  poll-drop_other = λ s other a h. look-write_other s other (after_drop (a.polls s)) a h;
  Watch = Bool;
  new_watch = λ b. b;
  send_replace = λ b w. b;
  borrow = λ w. w;
  borrow-new = λ b. refl;
  borrow-send_replace = λ b w. refl;
  Broadcast = Topic;
  new_broadcast = λ capacity. record { subscribers = 0; left = λ k. []; keeps = capacity };
  publish = λ e b. record b { left = λ k. b.left k ++ e ∷ [] };
  Subscriber = ℕ;
  subscribe = join;
  recv = λ s b. take_next s (b.left s) b;
  unread = λ s b. b.left s;
  kept = λ b. b.keeps;
  kept-new = λ capacity. omega arith;
  kept-publish = λ e b. refl;
  kept-subscribe = λ b. refl;
  kept-recv = λ s b. keeps-take_next s (b.left s) b;
  unread-subscribe = left-join;
  unread-publish = λ s e b. refl;
  recv-nothing = take_next-nothing;
  recv-received = take_next-received;
  recv-lagged = λ s b. take_next-lagged s (b.left s) b;
  Notify = ℕ;
  new_notify = 0;
  notify_waiters = λ n. n + 1;
  Notified = ℕ;
  notified = λ n. n;
  is_notified = λ f n. ltb f n;
  is_notified-notified = λ n. ltb_self n;
  is_notified-notify = λ n. ltb-suc n;
  is_notified-again = ltb-suc_of_ltb;
  show_duration = λ d. "some time";
}

abbrev pub no_events : Topic
no_events = record { subscribers = 0; left = λ k. []; keeps = 16 }

-- Channel 9 is closed.
abbrev pub no_traffic : Pipes
no_traffic = record { opened = λ k. if nat_beq k 9 then false else true; queues = λ k. [] }

abbrev pub no_slots : Slots
no_slots = record { made = 0; polls = λ k. unused }
