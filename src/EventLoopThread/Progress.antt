-- ===== src/EventLoopThread/Progress.antt =====
-- `startLoop` of SrcFile/EventLoopThread.c returns with the loop, unless the loop quits before.
use simple_net_base.Prelude.{
  ℕ, ◌+◌, ◌≤◌, ◌<◌, ◌≡◌, ◌⊎◌, inl, inr, refl, Bool, true, false, some, arith,
}
use simple_net_base.EventLoopThread.{
  System, Starter, Runner, init, Move, creates, locks, waits, goes_on, wakes, unlocks, reads,
  constructs, calls_back, runner_locks, publishes, notifies, runner_unlocks, Run, stop, further,
}
use simple_net_base.EventLoopThread.Handshake.{Inv, Run-Inv}

-- An upper bound of the moves that are left.
abbrev starter_left : Starter → Bool → ℕ
starter_left Starter.creating _ = 7
starter_left Starter.locking _ = 6
starter_left Starter.testing _ = 5
starter_left Starter.waiting true = 6
starter_left Starter.waiting false = 4
starter_left Starter.unlocking _ = 2
starter_left Starter.reading _ = 1
starter_left (Starter.returned o) _ = 0

abbrev runner_left : Runner → ℕ
runner_left Runner.unborn = 10
runner_left Runner.constructing = 9
runner_left Runner.calling_back = 8
runner_left Runner.locking = 7
runner_left Runner.publishing = 6
runner_left Runner.notifying = 5
runner_left Runner.unlocking = 1
runner_left _ = 0

abbrev left : System → ℕ
left s = starter_left s.starting s.signaled + runner_left s.running

Move-left : {l : ℕ} {s t : System} → Move l s t → Inv l s → left t < left s
Move-left (creates e) v = ground arith
Move-left (locks e f) v = ground arith
Move-left (waits e n) v = ground arith
Move-left (goes_on e n) v = ground arith
Move-left (wakes e g f) v = ground arith
Move-left (unlocks e) v = ground arith
Move-left (reads e) v = ground arith
Move-left (constructs e) v = ground arith
Move-left (calls_back e) v = ground arith
Move-left (runner_locks e f) v = ground arith
Move-left (publishes e) v = ground arith
Move-left (notifies e) v = ground arith
Move-left (runner_unlocks e) v = ground arith

Run-left : {l n : ℕ} {t : System} → Run l init n t → n + left t ≤ 17
Run-left stop = omega arith
Run-left (further r m) = omega (arith, Run-left r, Move-left m (Run-Inv r))

abbrev pub Moves : ℕ → System → Type 0
Moves l s = (t : System) × Move l s t

-- `startLoop` has returned the loop.
abbrev pub HasLoop : ℕ → System → Type 0
HasLoop l s = s.starting ≡ Starter.returned (some l)

module _ {l : ℕ} {s : System} (v : Inv l s) where
  -- While the runner waits for the mutex, the starter lets go of it.
  before_publishing : (p : Starter) → s.starting ≡ p → s.running ≡ Runner.locking → Moves l s
  before_publishing Starter.creating e r = (_, creates e)
  before_publishing Starter.testing e r = (_, waits e (ground (arith, v.not_out)))
  before_publishing Starter.unlocking e r = (_, unlocks e)
  before_publishing p e r = (_, runner_locks r (ground (arith, v.owned)))

  -- Once the runner is in its loop, the starter needs nobody else.
  in_loop : (p : Starter) → s.starting ≡ p → s.running ≡ Runner.looping → Moves l s ⊎ HasLoop l s
  in_loop Starter.creating e r = inl (_, creates e)
  in_loop Starter.locking e r = inl (_, locks e (ground (arith, v.owned)))
  in_loop Starter.testing e r = inl (_, goes_on e (ground (arith, v.out)))
  in_loop Starter.waiting e r =
      inl (_, wakes e (ground (arith, v.no_lost_wakeup)) (ground (arith, v.owned)))
  in_loop Starter.unlocking e r = inl (_, unlocks e)
  in_loop Starter.reading e r = inl (_, reads e)
  in_loop (Starter.returned o) e r = inr (ground (arith, v.result))

  progress : (r : Runner) → s.running ≡ r → Moves l s ⊎ HasLoop l s
  progress Runner.unborn e = inl (_, creates (first s.starting refl))
    where
      first : (p : Starter) → s.starting ≡ p → s.starting ≡ Starter.creating
      first Starter.creating f = f
      first p f = absurd (ground (arith, v.born))
  progress Runner.constructing e = inl (_, constructs e)
  progress Runner.calling_back e = inl (_, calls_back e)
  progress Runner.locking e = inl (before_publishing s.starting refl e)
  progress Runner.publishing e = inl (_, publishes e)
  progress Runner.notifying e = inl (_, notifies e)
  progress Runner.unlocking e = inl (_, runner_unlocks e)
  progress Runner.looping e = in_loop s.starting refl e
  progress Runner.clearing e = absurd (ground (arith, v.stays))
  progress Runner.finished e = absurd (ground (arith, v.stays))

-- From the start, if the thread can be created, with no wakeup that nobody asked for and as long as nobody makes the
-- loop quit: every interleaving of `startLoop` and `threadFunc` takes at most 17 steps, and it can go on
-- unless `startLoop` has returned the loop of the thread.
pub Run-ends : {l n : ℕ} {t : System} → Run l init n t → (n ≤ 17) × (Moves l t ⊎ HasLoop l t)
Run-ends {t = t} r = (omega (arith, Run-left r), progress (Run-Inv r) t.running refl)
