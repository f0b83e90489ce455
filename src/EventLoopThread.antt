-- ===== src/EventLoopThread.antt =====
-- SrcFile/EventLoopThread.h and SrcFile/EventLoopThread.c: `startLoop` in one thread and `threadFunc` in the
-- thread that it starts, one access to shared state a step. The mutex and the condition are those of Locks, with
-- one waiter at most.
use simple_net_base.Prelude.{ℕ, suc, ◌≡◌, ◌≢◌, Bool, true, false, Option, none, some}
pub mod Handshake
pub mod Progress
pub mod Blocked
pub mod Closing

-- `startLoop`, by what comes next.
pub data Starter : Type 0 where
  creating : Starter  -- thread_.start()
  locking : Starter
  testing : Starter  -- the condition of the while loop
  waiting : Starter
  unlocking : Starter
  reading : Starter  -- `return loop_`, outside the lock
  returned : Option ℕ → Starter

-- `threadFunc`, by what comes next.
pub data Runner : Type 0 where
  unborn : Runner
  constructing : Runner
  calling_back : Runner
  locking : Runner
  publishing : Runner  -- loop_ = &loop
  notifying : Runner
  unlocking : Runner
  looping : Runner  -- loop.loop()
  clearing : Runner  -- loop_ = NULL
  finished : Runner

pub data Owner : Type 0 where
  free starter runner : Owner

pub record System : Type 0 where
  pub loop : Option ℕ  -- loop_
  pub owner : Owner  -- who has the mutex
  pub signaled : Bool  -- the waiter has been notified
  pub starting : Starter
  pub running : Runner

abbrev pub init : System
init = record {
  loop = none;
  owner = Owner.free;
  signaled = false;
  starting = Starter.creating;
  running = Runner.unborn;
}

abbrev pub is_waiting : Starter → Bool
is_waiting Starter.waiting = true
is_waiting _ = false

-- The two threads over a loop at the address `l`.
pub data Move (l : ℕ) (s : System) : System → Type 0 where
  creates :
      s.starting ≡ Starter.creating
      → Move l s (record s { starting = Starter.locking; running = Runner.constructing })
  locks :
      s.starting ≡ Starter.locking
      → s.owner ≡ Owner.free
      → Move l s (record s { starting = Starter.testing; owner = Owner.starter })
  waits :
      s.starting ≡ Starter.testing
      → s.loop ≡ none
      → Move l s (record s { starting = Starter.waiting; owner = Owner.free; signaled = false })
  goes_on :
      s.starting ≡ Starter.testing
      → s.loop ≢ none
      → Move l s (record s { starting = Starter.unlocking })
  wakes :
      s.starting ≡ Starter.waiting
      → s.signaled ≡ true
      → s.owner ≡ Owner.free
      → Move l s (record s { starting = Starter.testing; owner = Owner.starter })
  unlocks :
      s.starting ≡ Starter.unlocking
      → Move l s (record s { starting = Starter.reading; owner = Owner.free })
  reads : s.starting ≡ Starter.reading → Move l s (record s { starting = Starter.returned s.loop })
  constructs :
      s.running ≡ Runner.constructing → Move l s (record s { running = Runner.calling_back })
  calls_back : s.running ≡ Runner.calling_back → Move l s (record s { running = Runner.locking })
  runner_locks :
      s.running ≡ Runner.locking
      → s.owner ≡ Owner.free
      → Move l s (record s { running = Runner.publishing; owner = Owner.runner })
  publishes :
      s.running ≡ Runner.publishing
      → Move l s (record s { running = Runner.notifying; loop = some l })
  notifies :
      s.running ≡ Runner.notifying
      → Move l s (record s { running = Runner.unlocking; signaled = is_waiting s.starting })
  runner_unlocks :
      s.running ≡ Runner.unlocking
      → Move l s (record s { running = Runner.looping; owner = Owner.free })

-- With what else may happen: pthread_create fails, the waiter wakes up unasked, and the loop is made to quit,
-- after which the thread ends.
pub data Step (l : ℕ) (s : System) : System → Type 0 where
  moves : {t : System} → Move l s t → Step l s t
  creation_fails :
      s.starting ≡ Starter.creating → Step l s (record s { starting = Starter.locking })
  wakes_unasked :
      s.starting ≡ Starter.waiting
      → s.owner ≡ Owner.free
      → Step l s (record s { starting = Starter.testing; owner = Owner.starter })
  quits : s.running ≡ Runner.looping → Step l s (record s { running = Runner.clearing })
  clears :
      s.running ≡ Runner.clearing → Step l s (record s { running = Runner.finished; loop = none })

pub data Steps (l : ℕ) (s : System) : System → Type 0 where
  here : Steps l s s
  next : {t u : System} → Steps l s t → Step l t u → Steps l s u

-- A run of moves alone, with their number.
pub data Run (l : ℕ) (s : System) : ℕ → System → Type 0 where
  stop : Run l s 0 s
  further : {n : ℕ} {t u : System} → Run l s n t → Move l t u → Run l s (suc n) u
