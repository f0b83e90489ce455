-- ===== src/Examples/Closings.antt =====
-- Runs of the destructor of SrcFile/EventLoopThread.c against the thread's loop.
use simple_net_base.Prelude.{ℕ, ◌≤◌, ◌≡◌, ◌≢◌, ◌⊎◌, refl, Option, some, none}
use simple_net_base.EventLoopThread.Closing.{
  State, Closer, before_loop, in_loop, tests_some, sets_quit, wakes, wakes_dead, joins, enters,
  leaves, clears, dies, Run, stop, further, round, Steps, here, next, moves, goes_round,
}
use simple_net_base.EventLoopThread.Closing.Outcome.{Moves, IsOver, Run-closes}
use simple_net_base.EventLoopThread.Closing.Lost.{IsLost, Steps-never_closes}

there_is_loop : ◌≢◌ {A = Option ℕ} (some 77) none
there_is_loop e = cc

-- The loop goes round once, is asked and woken, and ends.
abbrev orderly : (t : State) × Run (in_loop 77) 7 t
orderly = (
  _,
  further
      (further
        (further
          (further
            (further
              (further (further (round stop refl refl) (tests_some refl there_is_loop))
                (sets_quit refl refl))
              (wakes refl refl))
            (leaves refl refl))
          (clears refl))
        (dies refl))
      (joins refl refl),
)

orderly_closed : orderly.0.closing ≡ Closer.closed
orderly_closed = refl

Run-closes_example : (◌≤◌ 7 7) × (Moves orderly.0 ⊎ IsOver orderly.0)
Run-closes_example = Run-closes orderly.1

-- The loop sees `quit_` and ends before it is woken.
abbrev raced : (t : State) × Run (in_loop 77) 6 t
raced = (
  _,
  further
      (further
        (further
          (further (further (further stop (tests_some refl there_is_loop)) (sets_quit refl refl))
            (leaves refl refl))
          (clears refl))
        (dies refl))
      (wakes_dead refl refl),
)

raced_crashed : raced.0.closing ≡ Closer.crashed
raced_crashed = refl

-- The destructor is faster than the thread.
abbrev asked_early : (t : State) × Steps (before_loop 77) t
asked_early =
    (_, next (next here (moves (tests_some refl there_is_loop))) (moves (sets_quit refl refl)))

asked_early-IsLost : IsLost asked_early.0
asked_early-IsLost = record { in_wait = refl; unheard = refl }

abbrev joining_on : (t : State) × Steps asked_early.0 t
joining_on = (
  _,
  next (next (next here (moves (enters refl))) (moves (wakes refl refl))) (goes_round refl refl),
)

Steps-never_closes_example : joining_on.0.closing ≢ Closer.closed
Steps-never_closes_example = Steps-never_closes asked_early-IsLost joining_on.1
