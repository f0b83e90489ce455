-- ===== src/Locks.antt =====
-- SrcFile/Mutex.h, SrcFile/Condition.h and SrcFile/Condition.c: a mutex that knows its holder, and the
-- condition that lets go of it. The calls of pthread are the steps of a relation: which thread gets the
-- mutex, and when a waiter returns, is left open. A thread is known by its identifier, which is not 0.
use simple_net_base.Prelude.{
  ℕ, ◌+◌, ◌-◌, ◌*◌, ◌/◌, ◌%◌, ◌≡◌, ◌≢◌, Bool, true, false, Option, none, some, ◌==◌, if◌then◌else◌,
  Result, ok, ◌>>=◌, assert,
}
use simple_net_base.Prelude.Int.{ℤ, ◌+ℤ◌, quot, rem}
pub mod Holding
pub mod Timeout

-- `holder_`, and to whom pthread has given the mutex.
pub record MutexLock : Type 0 where
  pub holder : ℕ
  pub owner : Option ℕ

abbrev pub init : MutexLock
init = record { holder = 0; owner = none }

unfoldable pub is_locked_by_this_thread : ℕ → MutexLock → Bool
is_locked_by_this_thread tid m = m.holder == tid

unfoldable pub assert_locked : ℕ → MutexLock → Result (Unit {0})
unfolding is_locked_by_this_thread
assert_locked tid m = assert (is_locked_by_this_thread tid m)

unfoldable pub assign_holder : ℕ → MutexLock → MutexLock
assign_holder tid m = record m { holder = tid }

unfoldable pub unassign_holder : MutexLock → MutexLock
unassign_holder m = record m { holder = 0 }

-- What pthread_mutex_lock and pthread_mutex_unlock leave when they return.
abbrev pub taken : ℕ → MutexLock → MutexLock
taken tid m = record m { owner = some tid }

abbrev pub freed : MutexLock → MutexLock
freed m = record m { owner = none }

-- `~MutexLock`.
unfoldable pub destroy : MutexLock → Result (Unit {0})
destroy m = assert (m.holder == 0)

-- Where a thread stands with the mutex.
pub data Pc : Type 0 where
  outside : Pc
  entering : Pc  -- in `lock`, behind pthread_mutex_lock
  inside : Pc
  leaving : Pc  -- in `unlock`, before pthread_mutex_unlock
  letting_go : Pc  -- in `wait`, before pthread_cond_wait
  waiting : Pc
  woken : Pc  -- in `wait`, behind pthread_cond_wait

-- One step of the thread `tid`: `lock`, `unlock` and `Condition::wait` take two or more.
pub data Move (tid : ℕ) (m : MutexLock) : Pc → MutexLock → Pc → Type 0 where
  locks : m.owner ≡ none → Move tid m outside (taken tid m) entering
  assigns : Move tid m entering (assign_holder tid m) inside
  unassigns : Move tid m inside (unassign_holder m) leaving
  unlocks : Move tid m leaving (freed m) outside
  guards : Move tid m inside (unassign_holder m) letting_go
  sleeps : Move tid m letting_go (freed m) waiting
  wakes : m.owner ≡ none → Move tid m waiting (taken tid m) woken
  restores : Move tid m woken (assign_holder tid m) inside

-- `waitForSeconds`: a time of the clock and nanoseconds from it.
abbrev pub nanoseconds_per_second : ℕ
nanoseconds_per_second = 1_000_000_000

pub record Timespec : Type 0 where
  pub tv_sec : ℤ
  pub tv_nsec : ℤ

-- The `abstime` that waitForSeconds waits for.
unfoldable pub deadline : ℤ → Timespec → Timespec
deadline nanoseconds now = record {
  tv_sec = now.tv_sec +ℤ quot (now.tv_nsec +ℤ nanoseconds) nanoseconds_per_second;
  tv_nsec = rem (now.tv_nsec +ℤ nanoseconds) nanoseconds_per_second;
}
