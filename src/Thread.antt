-- ===== src/Thread.antt =====
-- SrcFile/Thread.h and SrcFile/Thread.c: a thread from its creation to its end. What pthread_create does is an
-- argument; CountDownLatch.c is not in the repository: its `wait` returns once the new thread has counted down.
use simple_net_base.Prelude.{
  ℕ, ◌+◌, ◌*◌, ◌/◌, ◌%◌, ◌<◌, Bool, true, false, not, ◌&&◌, List, [], ◌∷◌, ◌++◌, Option, none, some,
  ◌==◌, ltb, if◌then◌else◌, Result, ok, ◌>>=◌, ◌>>◌, assert,
}
use simple_net_base.Prelude.Decimal.{decimal, snprintf}
use simple_net_base.Atomic.{increment_and_get}
pub mod Ends
pub mod Birth
pub mod Current

pub record Thread : Type 0 where
  pub started : Bool
  pub joined : Bool
  pub tid : ℕ
  pub name : List ℕ
  pub latch : ℕ
  pub joins : ℕ  -- calls of pthread_join
  pub detaches : ℕ  -- calls of pthread_detach

abbrev thread_prefix : List ℕ
thread_prefix = b'T' ∷ b'h' ∷ b'r' ∷ b'e' ∷ b'a' ∷ b'd' ∷ []

unfoldable pub set_default_name : ℕ → Thread → Thread
set_default_name num t = elim t.name [
  | [] ↦ record t { name = snprintf 32 (thread_prefix ++ decimal num) }
  | c ∷ cs ↦ t
]

-- The constructor, with the number of threads created before: the thread, and the new number.
unfoldable pub init : ℕ → List ℕ → Thread × ℕ
unfolding set_default_name
init num_created name =
    let (num, created) = increment_and_get 32 num_created in
    (
      set_default_name num (record {
        started = false;
        joined = false;
        tid = 0;
        name = name;
        latch = 1;
        joins = 0;
        detaches = 0;
      }),
      created,
    )

-- `start`: pthread_create fails, or the new thread has written its identifier and counted down.
unfoldable pub start : Option ℕ → Thread → Result Thread
start created t = do
  assert (not t.started)
  elim created [
    | none ↦ ok (record t { started = false })
    | some tid ↦ assert (ltb 0 tid) >> ok (record t { started = true; tid = tid; latch = 0 })
  ]

unfoldable pub join : Thread → Result Thread
join t = do
  assert t.started
  assert (not t.joined)
  ok (record t { joined = true; joins = t.joins + 1 })

unfoldable pub destroy : Thread → Thread
destroy t = if t.started && not t.joined then record t { detaches = t.detaches + 1 } else t

-- How the thread's function ends.
pub data Ending : Type 0 where
  returns throws_exception throws_other : Ending

-- What `t_threadName` is while and after the function runs, and how `runInThread` ends.
pub data ThreadName : Type 0 where
  named : List ℕ → ThreadName
  finished crashed : ThreadName

pub data Leaving : Type 0 where
  falls_through aborts rethrows : Leaving

unfoldable pub run_in_thread : Ending → List ℕ → ThreadName × ThreadName × Leaving
run_in_thread how name =
    let running = named (elim name [ [] ↦ thread_prefix | c ∷ cs ↦ c ∷ cs ]) in
    elim how [
      | returns ↦ (running, finished, falls_through)
      | throws_exception ↦ (running, crashed, aborts)
      | throws_other ↦ (running, crashed, rethrows)
    ]

-- The seconds and nanoseconds of `sleepUsec`, for microseconds that are not negative.
unfoldable pub sleep_timespec : ℕ → ℕ × ℕ
sleep_timespec usec = (usec / 1_000_000, usec % 1_000_000 * 1000)
