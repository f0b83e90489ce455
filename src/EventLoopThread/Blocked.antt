-- ===== src/EventLoopThread/Blocked.antt =====
-- When `startLoop` of SrcFile/EventLoopThread.c never returns.
use simple_net_base.Prelude.{ℕ, ◌≡◌, ◌≢◌, Bool, true, false, Option, none, arith}
use simple_net_base.EventLoopThread.{
  System, Starter, Runner, Move, Step, moves, creation_fails, wakes_unasked, quits, clears, creates,
  locks, waits, goes_on, wakes, unlocks, reads, constructs, calls_back, runner_locks, publishes,
  notifies, runner_unlocks, Steps, here, next,
}

-- Before its test of `loop_` has gone well.
abbrev in_wait : Starter → Bool
in_wait Starter.locking = true
in_wait Starter.testing = true
in_wait Starter.waiting = true
in_wait _ = false

abbrev is_gone : Runner → Bool
is_gone Runner.unborn = true
is_gone Runner.finished = true
is_gone _ = false

-- There is no loop, `startLoop` has seen none, and the thread either was not created or has ended.
pub record IsLost (s : System) : Type 0 where
  pub no_loop : s.loop ≡ none
  pub starter_in_wait : in_wait s.starting ≡ true
  pub runner_gone : is_gone s.running ≡ true

Move-IsLost : {l : ℕ} {s t : System} → Move l s t → IsLost s → IsLost t
Move-IsLost (creates e) v = ground arith
Move-IsLost (locks e f) v = ground arith
Move-IsLost (waits e n) v = ground arith
Move-IsLost (goes_on e n) v = ground arith
Move-IsLost (wakes e g f) v = ground arith
Move-IsLost (unlocks e) v = ground arith
Move-IsLost (reads e) v = ground arith
Move-IsLost (constructs e) v = ground arith
Move-IsLost (calls_back e) v = ground arith
Move-IsLost (runner_locks e f) v = ground arith
Move-IsLost (publishes e) v = ground arith
Move-IsLost (notifies e) v = ground arith
Move-IsLost (runner_unlocks e) v = ground arith

Step-IsLost : {l : ℕ} {s t : System} → Step l s t → IsLost s → IsLost t
Step-IsLost (moves m) v = Move-IsLost m v
Step-IsLost (creation_fails e) v = ground arith
Step-IsLost (wakes_unasked e f) v = ground arith
Step-IsLost (quits e) v = ground arith
Step-IsLost (clears e) v = ground arith

Steps-IsLost : {l : ℕ} {s t : System} → IsLost s → Steps l s t → IsLost t
Steps-IsLost v here = v
Steps-IsLost v (next r st) = Step-IsLost st (Steps-IsLost v r)

-- If the thread could not be created, or if the loop has quit and its thread has ended before `startLoop` has seen
-- the loop, then whatever the two threads do, wakeups that nobody asked for included, `startLoop` never
-- returns.
pub Steps-never_returns :
    {l : ℕ} {s t : System}
    → IsLost s
    → Steps l s t
    → (o : Option ℕ) → t.starting ≢ Starter.returned o
Steps-never_returns v r o e = ground (arith, (Steps-IsLost v r).starter_in_wait)
