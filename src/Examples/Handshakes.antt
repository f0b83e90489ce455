-- ===== src/Examples/Handshakes.antt =====
-- Starts of a loop's thread in SrcFile/EventLoopThread.c.
use simple_net_base.Prelude.{ℕ, ◌≤◌, ◌≢◌, ◌⊎◌, refl, Option, none, some}
use simple_net_base.EventLoopThread.{
  System, Starter, init, creates, locks, constructs, calls_back, runner_locks, publishes, notifies,
  runner_unlocks, waits, wakes, goes_on, unlocks, reads, Run, stop, further, Steps, here, next,
  moves, creation_fails, quits, clears,
}
use simple_net_base.EventLoopThread.Progress.{Moves, HasLoop, Run-ends}
use simple_net_base.EventLoopThread.Blocked.{IsLost, Steps-never_returns}

there_is_loop : ◌≢◌ {A = Option ℕ} (some 77) none
there_is_loop e = cc

-- `startLoop` waits before the loop at the address 77 is there.
abbrev started : (t : System) × Run 77 init 13 t
started = (
  _,
  further
      (further
        (further
          (further
            (further
              (further
                (further
                  (further
                    (further
                      (further
                        (further (further (further stop (creates refl)) (locks refl refl))
                          (waits refl refl))
                        (constructs refl))
                      (calls_back refl))
                    (runner_locks refl refl))
                  (publishes refl))
                (notifies refl))
              (runner_unlocks refl))
            (wakes refl refl refl))
          (goes_on refl there_is_loop))
        (unlocks refl))
      (reads refl),
)

started_has_loop : HasLoop 77 started.0
started_has_loop = refl

Run-ends_example : (◌≤◌ 13 17) × (Moves 77 started.0 ⊎ HasLoop 77 started.0)
Run-ends_example = Run-ends started.1

-- The thread's loop quits before `startLoop` gets the mutex.
abbrev quit_early : (t : System) × Steps 77 init t
quit_early = (
  _,
  next
      (next
        (next
          (next
            (next
              (next
                (next (next (next here (moves (creates refl))) (moves (constructs refl)))
                  (moves (calls_back refl)))
                (moves (runner_locks refl refl)))
              (moves (publishes refl)))
            (moves (notifies refl)))
          (moves (runner_unlocks refl)))
        (quits refl))
      (clears refl),
)

quit_early-IsLost : IsLost quit_early.0
quit_early-IsLost = record { no_loop = refl; starter_in_wait = refl; runner_gone = refl }

abbrev not_created : (t : System) × Steps 77 init t
not_created = (_, next here (creation_fails refl))

not_created-IsLost : IsLost not_created.0
not_created-IsLost = record { no_loop = refl; starter_in_wait = refl; runner_gone = refl }

abbrev waited : (t : System) × Steps 77 not_created.0 t
waited = (_, next (next here (moves (locks refl refl))) (moves (waits refl refl)))

Steps-never_returns_example : waited.0.starting ≢ Starter.returned none
Steps-never_returns_example = Steps-never_returns not_created-IsLost waited.1 none
