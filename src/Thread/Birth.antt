-- ===== src/Thread/Birth.antt =====
-- `Thread::start` of SrcFile/Thread.c in one thread and `startThread` in the thread that it creates, one access to
-- shared state a step. CountDownLatch.c is not in the repository: its `wait` returns once the count is 0.
use simple_net_base.Prelude.{ℕ, suc, ◌+◌, ◌<◌, ◌≡◌, Bool, true, false}
pub mod Ownership

-- `start`, by what comes next.
pub data Starter : Type 0 where
  creating : Starter  -- pthread_create
  waiting : Starter  -- latch_.wait()
  asserting : Starter  -- assert(tid_>0)
  started : Starter
  refused : Starter  -- pthread_create has failed
  failed : Starter  -- the assertion has failed

-- `runInThread` and `delete data`, by what comes next.
pub data Worker : Type 0 where
  unborn : Worker
  writing : Worker  -- *tid_ = CurrentThread::tid()
  counting : Worker  -- latch_->countDown()
  naming : Worker  -- t_threadName
  calling : Worker  -- func_()
  deleting : Worker  -- delete data
  ended : Worker
  aborting : Worker  -- abort(), or an exception that leaves the thread

pub record System : Type 0 where
  pub started : Bool  -- started_
  pub tid : ℕ  -- tid_
  pub latch : ℕ  -- the count of latch_
  pub data_alive : Bool  -- the ThreadData exists
  pub deletes : ℕ  -- how often it was deleted
  pub starting : Starter
  pub running : Worker

-- `start` has set `started_` and made the ThreadData.
abbrev pub init : System
init = record {
  started = true;
  tid = 0;
  latch = 1;
  data_alive = true;
  deletes = 0;
  starting = Starter.creating;
  running = Worker.unborn;
}

-- `id` is the identifier of the new thread.
pub data Move (id : ℕ) (s : System) : System → Type 0 where
  creates :
      s.starting ≡ Starter.creating
      → Move id s (record s { starting = Starter.waiting; running = Worker.writing })
  creation_fails :
      s.starting ≡ Starter.creating
      → Move id s (record s {
        starting = Starter.refused;
        started = false;
        data_alive = false;
        deletes = s.deletes + 1;
      })
  passes :
      s.starting ≡ Starter.waiting
      → s.latch ≡ 0
      → Move id s (record s { starting = Starter.asserting })
  holds :
      s.starting ≡ Starter.asserting
      → 0 < s.tid
      → Move id s (record s { starting = Starter.started })
  fails :
      s.starting ≡ Starter.asserting
      → s.tid ≡ 0
      → Move id s (record s { starting = Starter.failed })
  writes : s.running ≡ Worker.writing → Move id s (record s { running = Worker.counting; tid = id })
  counts_down :
      s.running ≡ Worker.counting → Move id s (record s { running = Worker.naming; latch = 0 })
  names : s.running ≡ Worker.naming → Move id s (record s { running = Worker.calling })
  returns : s.running ≡ Worker.calling → Move id s (record s { running = Worker.deleting })
  throws : s.running ≡ Worker.calling → Move id s (record s { running = Worker.aborting })
  deletes_data :
      s.running ≡ Worker.deleting
      → Move id s (record s { running = Worker.ended; data_alive = false; deletes = s.deletes + 1 })

pub data Run (id : ℕ) (s : System) : ℕ → System → Type 0 where
  stop : Run id s 0 s
  further : {n : ℕ} {t u : System} → Run id s n t → Move id t u → Run id s (suc n) u
