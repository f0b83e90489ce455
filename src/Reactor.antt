-- ===== src/Reactor.antt =====
-- SrcFile/EventLoop.c from its constructor to its destructor: the loop with its own two channels and its
-- timer queue, and the calls that it passes to the queue. `hasChannel` of SrcFile/Poller.h is an argument.
use simple_net_base.Prelude.{
  ℕ, ◌-◌, ◌^◌, Bool, true, false, not, List, [], ◌∷◌, Option, none, some, if◌then◌else◌, is_none,
  Result, ok, fault, aborted, ◌>>=◌, ◌>>◌, assert,
}
use simple_net_base.Prelude.Int.{ℤ, pos}
use simple_net_base.Channel
use simple_net_base.Channel.{Channel, want_reading}
use simple_net_base.Poller.{Poller}
use simple_net_base.Functor
use simple_net_base.Functor.{Functor}
use simple_net_base.EventLoop
use simple_net_base.EventLoop.{EventLoop, is_in_loop_thread, run_in_loop, remove_from_loop}
use simple_net_base.TimerQueue.{
  Timer, TimerQueue, timer_at, new_timer, add_timer_in_loop, cancel_in_loop, delete_all, add_time,
}
pub mod Ends
pub mod Timers

pub record Reactor : Type 0 where
  pub loop : EventLoop Functor
  pub timers : TimerQueue
  pub timer_channel : Channel
  pub wakeup_channel : Channel

-- What the constructor meets: where the objects are, what the system answers, `kInitEventListSize`, and
-- `s_numCreated_` of Timer.
pub record Setting : Type 0 where
  pub address : ℕ
  pub tid : ℕ
  pub timer_channel_address : ℕ
  pub wakeup_channel_address : ℕ
  pub timerfd : Option ℕ
  pub eventfd : Option ℕ
  pub events_size : ℕ
  pub num_created : ℕ

-- A descriptor as an int, by its bits: timerfd_create that fails leaves -1, which the code goes on with.
abbrev pub as_int : Option ℕ → ℕ
as_int none = 2 ^ 32 - 1
as_int (some fd) = fd

abbrev pub abort_if : Bool → Result (Unit {0})
abort_if true = fault aborted
abort_if false = ok tt

unfoldable pub create_eventfd : Option ℕ → Result ℕ
create_eventfd none = fault aborted
create_eventfd (some fd) = ok fd

abbrev pub empty_poller : ℕ → Poller
empty_poller events_size = record { channels = []; ctls = []; events_size = events_size }

abbrev pub empty_queue : ℕ → TimerQueue
empty_queue num_created = record {
  heap = [];
  timers = [];
  active_timers = [];
  canceling_timers = [];
  calling_expired_timers = false;
  num_created = num_created;
  armed = none;
}

-- The constructor, given `t_loopInThisThread`; it gives the new value of that.
unfoldable pub construct : Setting → Option ℕ → Result (Reactor × Option ℕ)
unfolding create_eventfd want_reading
construct s loop_in_this_thread = do
  (timer_channel, l1) ←
      EventLoop.update_channel
        (want_reading (Channel.init s.timer_channel_address (as_int s.timerfd)))
        (EventLoop.init s.tid (empty_poller s.events_size))
  wakeup_fd ← create_eventfd s.eventfd
  abort_if (not (is_none loop_in_this_thread))
  (wakeup_channel, l2) ←
      EventLoop.update_channel (want_reading (Channel.init s.wakeup_channel_address wakeup_fd)) l1
  ok (
    record {
      loop = l2;
      timers = empty_queue s.num_created;
      timer_channel = timer_channel;
      wakeup_channel = wakeup_channel;
    },
    some s.address,
  )

-- What a destructor leaves: the poller, the timers that still exist, the descriptors that were closed,
-- and `t_loopInThisThread`.
pub record Ended : Type 0 where
  pub poller : Poller
  pub heap : List (ℕ × Timer)
  pub closed : List ℕ
  pub loop_in_this_thread : Option ℕ

module _ (has_channel : Channel → Poller → Bool) where
  -- `~Channel`, by the thread `caller`.
  unfoldable pub destroy_channel : ℕ → Channel → EventLoop Functor → Result (Unit {0})
  unfolding is_in_loop_thread
  destroy_channel caller c l = do
    assert (not c.event_handling)
    assert (not c.added_to_loop)
    if is_in_loop_thread caller l then assert (not (has_channel c l.poller)) else ok tt

  -- `~EventLoop` and then the destructors of its members, the last one first.
  unfoldable pub destroy : ℕ → Reactor → Result Ended
  unfolding destroy_channel
  destroy caller r = do
    (wakeup_channel, l1) ← remove_from_loop r.wakeup_channel r.loop
    destroy_channel caller wakeup_channel l1
    (timer_channel, l2) ← remove_from_loop r.timer_channel l1
    heap ← delete_all r.timers.timers r.timers.heap
    destroy_channel caller timer_channel l2
    ok (record {
      poller = l2.poller;
      heap = heap;
      closed = timer_channel.fd ∷ wakeup_channel.fd ∷ [];
      loop_in_this_thread = none;
    })

-- `TimerId(timer, timer->sequence())`.
unfoldable pub identified : ℕ → Reactor → Result ((ℕ × ℕ) × Reactor)
identified p r = timer_at p r.timers.heap >>= λ t. ok ((p, t.sequence), r)

-- `meanwhile` is what the loop does between the hand-over of a timer and the use of its sequence number.
module _ (malloc : List (ℕ × Timer) → Option ℕ) (meanwhile : Reactor → Reactor) where
  -- `addTimer` by the thread `caller`, with the time that the clock shows in the loop's thread. Another
  -- thread leaves the timer to the loop, which goes on before the number is read.
  unfoldable pub add_timer : ℕ → ℕ → ℤ → ℤ → Bool → ℤ → Reactor → Result ((ℕ × ℕ) × Reactor)
  unfolding new_timer run_in_loop is_in_loop_thread identified
  add_timer caller callback when delta repeat clock r = do
    (p, q) ← new_timer malloc callback when delta repeat r.timers
    r2 ←
        run_in_loop caller (Functor.add_timer_in_loop p)
          (add_timer_in_loop clock p q >>= λ q'. ok (record r { timers = q' }))
          (λ l. record r { timers = q; loop = l }) r.loop
    identified p (if is_in_loop_thread caller r.loop then r2 else meanwhile r2)

  unfoldable pub run_at : ℕ → ℕ → ℤ → ℤ → Reactor → Result ((ℕ × ℕ) × Reactor)
  unfolding add_timer
  run_at caller callback time clock r = add_timer caller callback time (pos 0) false clock r

  -- A delay and an interval by their microseconds; `positive` is whether the interval is above 0.
  unfoldable pub run_after : ℕ → ℕ → ℤ → ℤ → ℤ → Reactor → Result ((ℕ × ℕ) × Reactor)
  unfolding run_at
  run_after caller callback now delay clock r = run_at caller callback (add_time now delay) clock r

  unfoldable pub run_every : ℕ → ℕ → ℤ → ℤ → Bool → ℤ → Reactor → Result ((ℕ × ℕ) × Reactor)
  unfolding add_timer
  run_every caller callback now interval positive clock r =
      add_timer caller callback (add_time now interval) interval positive clock r

unfoldable pub cancel : ℕ → ℕ → ℕ → Reactor → Result Reactor
unfolding run_in_loop
cancel caller p s r =
    run_in_loop caller (Functor.cancel_in_loop p s)
      (cancel_in_loop p s r.timers >>= λ q. ok (record r { timers = q }))
      (λ l. record r { loop = l }) r.loop
