-- ===== src/Relay/RetryTimer.antt =====
-- A retry timer of ts/infinity-bridge-relay/src/relay.ts: the number that the relay keeps of it and the timers
-- that run in the browser are two things, which the code keeps together.
use infinity_wasm_bridge.Prelude.{
  ℕ, ◌+◌, ◌≡◌, refl, Bool, true, not, Option, none, some, List, [], ◌∷◌, is_some, is_empty, length,
  ◌≤◌, contains, if◌then◌else◌, ◌==◌, nat_eq, nat_beq_iff, arith,
}

-- `id` is the field of the relay, `running` are the timers of this kind that the browser runs, and
-- `made` counts those that it made.
pub record RetryTimer : Type 0 where
  pub id : Option ℕ
  pub running : List ℕ
  pub made : ℕ

abbrev pub unset : RetryTimer
unset = record { id = none; running = []; made = 0 }

unfoldable pub removed : ℕ → List ℕ → List ℕ
removed i [] = []
removed i (k ∷ ids) = let rest = removed i ids in if k == i then rest else k ∷ rest

-- `if (id !== undefined) return; id = setTimeout(…)`.
unfoldable pub schedule : RetryTimer → RetryTimer
schedule t =
    if is_some t.id
    then t
    else record { id = some t.made; running = t.made ∷ t.running; made = t.made + 1 }

-- `if (id !== undefined) { clearTimeout(id); id = undefined; }`.
abbrev pub clear_running : Option ℕ → List ℕ → List ℕ
clear_running none running = running
clear_running (some i) running = removed i running

abbrev pub clear : RetryTimer → RetryTimer
clear t = record t { id = none; running = clear_running t.id t.running }

-- The timer goes off: the browser is done with it, and its callback first forgets the number.
unfoldable pub elapse : ℕ → RetryTimer → RetryTimer
elapse i t = record t { id = none; running = removed i t.running }

abbrev pub is_running : RetryTimer → Bool
is_running t = not (is_empty t.running)

abbrev pub running_of : Option ℕ → List ℕ
running_of none = []
running_of (some i) = i ∷ []

-- Only the timer whose number is kept runs.
abbrev pub IsSingle : RetryTimer → Type 0
IsSingle t = t.running ≡ running_of t.id

pub schedule-IsSingle : (t : RetryTimer) → IsSingle t → IsSingle (schedule t)
unfolding schedule
schedule-IsSingle t v = ground (arith, v)

pub is_running-schedule : (t : RetryTimer) → IsSingle t → is_running (schedule t) ≡ true
unfolding schedule
is_running-schedule t v = ground (arith, v)

clear_running-own : (id : Option ℕ) → clear_running id (running_of id) ≡ []
unfolding removed
clear_running-own none = refl
clear_running-own (some i) = ground (arith, nat_beq_iff i i)

pub clear-IsSingle : (t : RetryTimer) → IsSingle t → IsSingle (clear t)
clear-IsSingle t v = rw v (clear_running-own t.id)

removed-own :
    (i : ℕ) (id : Option ℕ) → contains (running_of id) i ≡ true → removed i (running_of id) ≡ []
unfolding removed contains
removed-own i none among = refl
removed-own i (some k) among = ground (arith, among)

pub elapse-IsSingle :
    (i : ℕ) (t : RetryTimer) → contains t.running i ≡ true → IsSingle t → IsSingle (elapse i t)
unfolding elapse
elapse-IsSingle i t among v = rw v (removed-own i t.id (rw⁻¹ v among))

pub is_running_of_contains :
    (i : ℕ) (t : RetryTimer) → contains t.running i ≡ true → is_running t ≡ true
unfolding contains
is_running_of_contains i t among = ground (arith, among)

pub length_of_IsSingle : (t : RetryTimer) → IsSingle t → length t.running ≤ 1
length_of_IsSingle t v = ground (arith, v)
