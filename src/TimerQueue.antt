-- ===== src/TimerQueue.antt =====
-- SrcFile/TimerQueue.h, SrcFile/TimerQueue.c, SrcFile/Timer.h, SrcFile/Timer.c, SrcFile/TimerId.h and
-- SrcFile/Timestamp.h: timers on the heap, the two sets that hold their addresses, and the timer
-- descriptor. Times are microseconds; an interval, a double in the code, is given by the two things that
-- the code makes of it: whether it is positive, and its microseconds.
use simple_net_base.Prelude.{
  ℕ, ◌+◌, ◌-◌, ◌*◌, ◌/◌, ◌%◌, ◌^◌, Bool, true, false, not, ◌&&◌, ◌||◌, List, [], ◌∷◌, Option, none,
  some, ◌==◌, ltb, if◌then◌else◌, length, Result, ok, fault, dangling, bad_alloc, ◌>>=◌, ◌>>◌,
  assert, lookup,
}
use simple_net_base.Prelude.Assoc
use simple_net_base.Prelude.Int.{ℤ, pos, pos_part, ◌+ℤ◌, ◌-ℤ◌, ltb_ℤ}
use simple_net_base.StdSet
use simple_net_base.StdSet.{contains, before, from_bound}
pub use simple_net_base.Timestamp.{micro_seconds_per_second, valid, add_time}
pub mod Invariant
pub mod Changes
pub mod Idle
pub mod Operations
pub mod Expiry
pub mod Rounds
pub mod Effects
pub mod Ending
pub mod Ordering

-- `UINTPTR_MAX`.
abbrev pub uintptr_max : ℕ
uintptr_max = 2 ^ 64 - 1

pub record Timer : Type 0 where
  pub callback : ℕ
  pub expiration : ℤ
  pub delta : ℤ  -- the microseconds of interval_
  pub repeat : Bool
  pub sequence : ℕ

-- An expiration with the address of a timer, and an address with a sequence number.
abbrev pub Entry : Type 0
Entry = ℤ × ℕ

abbrev pub ActiveTimer : Type 0
ActiveTimer = ℕ × ℕ

-- `operator<` of std::pair.
unfoldable pub entry_lt : Entry → Entry → Bool
entry_lt (e, p) (f, q) = ltb_ℤ e f || (not (ltb_ℤ f e) && ltb p q)

unfoldable pub active_lt : ActiveTimer → ActiveTimer → Bool
active_lt (p, s) (q, t) = ltb p q || (not (ltb q p) && ltb s t)

pub record Timespec : Type 0 where
  pub tv_sec : ℕ
  pub tv_nsec : ℕ

pub record TimerQueue : Type 0 where
  pub heap : List (ℕ × Timer)  -- the timers that exist, by address
  pub timers : List Entry
  pub active_timers : List ActiveTimer
  pub canceling_timers : List ActiveTimer
  pub calling_expired_timers : Bool
  pub num_created : ℕ  -- Timer::s_numCreated_
  pub armed : Option (ℤ × Timespec)  -- the last setting of timerfd_, and the expiration it was for

unfoldable pub how_much_time_from_now : ℤ → ℤ → Timespec
how_much_time_from_now when now =
    let difference = when -ℤ now in
    let microseconds = if ltb_ℤ difference (pos 100) then 100 else pos_part difference in
    record {
      tv_sec = microseconds / micro_seconds_per_second;
      tv_nsec = (microseconds % micro_seconds_per_second) * 1000;
    }

unfoldable pub reset_timerfd : ℤ → ℤ → TimerQueue → TimerQueue
reset_timerfd expiration now q = record q {
  armed = some (expiration, how_much_time_from_now expiration now);
}

-- `*timer`.
abbrev pub timer_at : ℕ → List (ℕ × Timer) → Result Timer
timer_at p h = elim (lookup p h) [ none ↦ fault dangling | some t ↦ ok t ]

unfoldable pub restart : ℤ → ℕ → Timer → TimerQueue → TimerQueue
restart now p t q = record q {
  heap =
      Assoc.insert p (record t { expiration = if t.repeat then add_time now t.delta else pos 0 })
        q.heap;
}

-- `delete timer`.
unfoldable pub delete : ℕ → TimerQueue → TimerQueue
delete p q = record q { heap = Assoc.erase p q.heap }

abbrev pub same_size : TimerQueue → Bool
same_size q = length q.timers == length q.active_timers

abbrev pub is_earliest : ℤ → List Entry → Bool
is_earliest when [] = true
is_earliest when ((e, p) ∷ ts) = ltb_ℤ when e

unfoldable pub insert : ℕ → TimerQueue → Result (Bool × TimerQueue)
insert p q = do
  assert (same_size q)
  t ← timer_at p q.heap
  let q1 = record q { timers = StdSet.insert entry_lt (t.expiration, p) q.timers }
  assert (not (contains entry_lt (t.expiration, p) q.timers))
  let q2 = record q1 { active_timers = StdSet.insert active_lt (p, t.sequence) q.active_timers }
  assert (not (contains active_lt (p, t.sequence) q.active_timers))
  assert (same_size q2)
  ok (is_earliest t.expiration q.timers, q2)

unfoldable pub add_timer_in_loop : ℤ → ℕ → TimerQueue → Result TimerQueue
add_timer_in_loop clock p q = do
  t ← timer_at p q.heap
  (earliest, q') ← insert p q
  ok (if earliest then reset_timerfd t.expiration clock q' else q')

unfoldable pub cancel_active : ℕ → ℕ → TimerQueue → Result TimerQueue
unfolding delete
cancel_active p s q = do
  t ← timer_at p q.heap
  assert (contains entry_lt (t.expiration, p) q.timers)
  ok (
      delete p (record q {
        timers = StdSet.erase entry_lt (t.expiration, p) q.timers;
        active_timers = StdSet.erase active_lt (p, s) q.active_timers;
      }))

unfoldable pub cancel_unknown : ℕ → ℕ → TimerQueue → TimerQueue
cancel_unknown p s q =
    if q.calling_expired_timers
    then record q { canceling_timers = StdSet.insert active_lt (p, s) q.canceling_timers }
    else q

unfoldable pub cancel_in_loop : ℕ → ℕ → TimerQueue → Result TimerQueue
cancel_in_loop p s q = do
  assert (same_size q)
  let found = cancel_active p s q
  q' ← if contains active_lt (p, s) q.active_timers then found else ok (cancel_unknown p s q)
  assert (same_size q')
  ok q'

-- The loop of `getExpired`.
unfoldable pub retire : List Entry → List (ℕ × Timer) → List ActiveTimer → Result (List ActiveTimer)
retire [] h a = ok a
retire ((e, p) ∷ es) h a = do
  t ← timer_at p h
  assert (contains active_lt (p, t.sequence) a)
  retire es h (StdSet.erase active_lt (p, t.sequence) a)

unfoldable pub get_expired : ℤ → TimerQueue → Result (List Entry × TimerQueue)
get_expired now q = do
  assert (same_size q)
  let sentry : Entry = (now, uintptr_max)
  let expired = before entry_lt sentry q.timers
  let rest = from_bound entry_lt sentry q.timers
  assert (is_earliest now rest)
  a ← retire expired q.heap q.active_timers
  let q' = record q { timers = rest; active_timers = a }
  assert (same_size q')
  ok (expired, q')

-- The loop of `~TimerQueue`: what is left of the heap.
unfoldable pub delete_all : List Entry → List (ℕ × Timer) → Result (List (ℕ × Timer))
delete_all [] h = ok h
delete_all ((e, p) ∷ es) h = timer_at p h >>= λ t. delete_all es (Assoc.erase p h)

-- What a timer's callback may ask of the queue, each with the time that the clock then shows.
pub data TimerCall : Type 0 where
  adds : (callback : ℕ) (when : ℤ) (delta : ℤ) (repeat : Bool) (clock : ℤ) → TimerCall
  cancels : (timer : ℕ) (sequence : ℕ) → TimerCall

-- The constructor of Timer, at the address that `new` gives; with none, `new` throws.
unfoldable pub new_at : Option ℕ → ℕ → ℤ → ℤ → Bool → TimerQueue → Result (ℕ × TimerQueue)
new_at none callback when delta repeat q = fault bad_alloc
new_at (some p) callback when delta repeat q = ok (
  p,
  record q {
    heap =
        Assoc.insert p
          (record {
            callback = callback;
            expiration = when;
            delta = delta;
            repeat = repeat;
            sequence = q.num_created + 1;
          })
          q.heap;
    num_created = q.num_created + 1;
  },
)

-- `new` finds an address for a new timer, given those in use.
module _ (malloc : List (ℕ × Timer) → Option ℕ) where
  unfoldable pub new_timer : ℕ → ℤ → ℤ → Bool → TimerQueue → Result (ℕ × TimerQueue)
  unfolding new_at
  new_timer callback when delta repeat q = new_at (malloc q.heap) callback when delta repeat q

  -- `addTimer` and `cancel` as the loop's own thread calls them.
  unfoldable pub run_call : TimerCall → TimerQueue → Result TimerQueue
  unfolding new_timer
  run_call (adds callback when delta repeat clock) q =
      new_timer callback when delta repeat q >>= λ (p, q'). add_timer_in_loop clock p q'
  run_call (cancels p s) q = cancel_in_loop p s q

  unfoldable pub run_calls : List TimerCall → TimerQueue → Result TimerQueue
  run_calls [] q = ok q
  run_calls (k ∷ ks) q = run_call k q >>= run_calls ks

  module _ (client : ℕ → TimerQueue → List TimerCall) where
    unfoldable pub run_expired : List Entry → TimerQueue → Result TimerQueue
    run_expired [] q = ok q
    run_expired ((e, p) ∷ es) q = do
      t ← timer_at p q.heap
      q' ← run_calls (client t.callback q) q
      run_expired es q'

    unfoldable pub reset_one : ℤ → ℕ → Timer → TimerQueue → Result TimerQueue
    unfolding restart delete
    reset_one now p t q =
        let again = insert p (restart now p t q) >>= λ r. ok r.1 in
        if t.repeat && not (contains active_lt (p, t.sequence) q.canceling_timers)
        then again
        else ok (delete p q)

    unfoldable pub reset_all : List Entry → ℤ → TimerQueue → Result TimerQueue
    reset_all [] now q = ok q
    reset_all ((e, p) ∷ es) now q = do
      t ← timer_at p q.heap
      q' ← reset_one now p t q
      reset_all es now q'

    unfoldable pub next_expire : TimerQueue → Result ℤ
    next_expire q = elim q.timers [
      | [] ↦ ok (pos 0)
      | (e, p) ∷ ts ↦ timer_at p q.heap >>= λ t. ok t.expiration
    ]

    unfoldable pub reset : List Entry → ℤ → ℤ → TimerQueue → Result TimerQueue
    reset expired now clock q = do
      q' ← reset_all expired now q
      next ← next_expire q'
      ok (if valid next then reset_timerfd next clock q' else q')

    unfoldable pub handle_read : ℤ → ℤ → TimerQueue → Result TimerQueue
    handle_read now clock q = do
      (expired, q1) ← get_expired now q
      q2 ← run_expired expired (record q1 { calling_expired_timers = true; canceling_timers = [] })
      reset expired now clock (record q2 { calling_expired_timers = false })
