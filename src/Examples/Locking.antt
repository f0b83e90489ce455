-- ===== src/Examples/Locking.antt =====
-- Threads over a mutex of SrcFile/Mutex.h, and a deadline of SrcFile/Condition.c.
use simple_net_base.Prelude.{ℕ, ◌≡◌, ◌↔◌, refl, true, ok, arith}
use simple_net_base.Prelude.Int.{pos, ◌+ℤ◌, ◌≤ℤ◌}
use simple_net_base.Locks.{Timespec, deadline, assert_locked, locks, assigns, guards, sleeps}
use simple_net_base.Locks.Holding.{System, Reach, start, later, runs, is_inside, owns, Reach-holds}
use simple_net_base.Locks.Timeout.{total, deadline-total}

-- Thread 5 waits, thread 6 is inside.
abbrev two_threads : (s : System) × Reach s
two_threads = (
  _,
  later
      (later
        (later
          (later
            (later (later start (runs 5 (omega arith) (locks refl))) (runs 5 (omega arith) assigns))
            (runs 5 (omega arith) guards))
          (runs 5 (omega arith) sleeps))
        (runs 6 (omega arith) (locks refl)))
      (runs 6 (omega arith) assigns),
)

Reach-holds_example :
    ((assert_locked 6 two_threads.0.mutex ≡ ok tt) ↔ (is_inside (two_threads.0.pc 6) ≡ true))
    × (owns (two_threads.0.pc 6) ≡ true → owns (two_threads.0.pc 5) ≡ true → ◌≡◌ {A = ℕ} 6 5)
Reach-holds_example = Reach-holds two_threads.1 6 5 (omega arith)

six_is_inside : is_inside (two_threads.0.pc 6) ≡ true
six_is_inside = refl

abbrev now : Timespec
now = record { tv_sec = pos 100; tv_nsec = pos 900_000_000 }

-- A second and a half more.
deadline_carries :
    deadline (pos 1_500_000_000) now ≡ record { tv_sec = pos 102; tv_nsec = pos 400_000_000 }
unfolding deadline ◌+ℤ◌
deadline_carries = refl

deadline-total_example :
    (total (deadline (pos 1_500_000_000) now) ≡ total now +ℤ pos 1_500_000_000)
    × ((deadline (pos 1_500_000_000) now).tv_nsec ≤ℤ pos 999_999_999)
    × (pos 0 ≤ℤ now.tv_nsec +ℤ pos 1_500_000_000
        → pos 0 ≤ℤ (deadline (pos 1_500_000_000) now).tv_nsec)
deadline-total_example = deadline-total (pos 1_500_000_000) now (omega arith) (omega arith)
