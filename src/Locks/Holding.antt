-- ===== src/Locks/Holding.antt =====
-- Any number of threads over one mutex of SrcFile/Mutex.h and a condition of SrcFile/Condition.h that waits
-- with it, interleaved in any order.
use simple_net_base.Prelude.{
  ℕ, ◌≡◌, ◌≢◌, ◌↔◌, refl, sym, Bool, true, false, some, arith, ◌==◌, if◌then◌else◌, ok,
}
use simple_net_base.Locks.{
  MutexLock, init, assign_holder, unassign_holder, is_locked_by_this_thread, assert_locked, Pc,
  outside, inside, waiting, Move, locks, wakes,
}

abbrev pub update : (ℕ → Pc) → ℕ → Pc → ℕ → Pc
update pc i p j = if j == i then p else pc j

pub record System : Type 0 where
  pub mutex : MutexLock
  pub pc : ℕ → Pc

pub data Step (s : System) : System → Type 0 where
  runs :
      (tid : ℕ) {m : MutexLock} {p : Pc}
      → tid ≢ 0
      → Move tid s.mutex (s.pc tid) m p
      → Step s (record { mutex = m; pc = update s.pc tid p })

pub data Reach : System → Type 0 where
  start : Reach (record { mutex = init; pc = λ i. outside })
  later : {s t : System} → Reach s → Step s t → Reach t

-- Between the return of pthread_mutex_lock, or of pthread_cond_wait, and the call that frees the mutex.
abbrev pub owns : Pc → Bool
owns outside = false
owns waiting = false
owns _ = true

-- In the code that the lock protects.
abbrev pub is_inside : Pc → Bool
is_inside inside = true
is_inside _ = false

record Inv (m : MutexLock) (pc : ℕ → Pc) : Type 0 where
  owned : (i : ℕ) → owns (pc i) ≡ true → m.owner ≡ some i
  held : (i : ℕ) → is_inside (pc i) ≡ true → m.holder ≡ i
  known : (i : ℕ) → m.holder ≡ i → i ≢ 0 → is_inside (pc i) ≡ true
  nobody : is_inside (pc 0) ≡ false

Move-Inv :
    (tid : ℕ) {m m' : MutexLock} {p p' : Pc} (pc : ℕ → Pc)
    → pc tid ≡ p
    → tid ≢ 0
    → Move tid m p m' p'
    → Inv m pc
    → Inv m' (update pc tid p')
unfolding assign_holder unassign_holder
Move-Inv tid pc e ne (locks free) v = record {
  owned = λ i h. ground (arith, v.owned i, e, free);
  held = λ i h. ground (arith, v.held i, e);
  known = λ i h n. ground (arith, v.known i, e);
  nobody = ground (arith, v.nobody);
}
Move-Inv tid pc e ne (wakes free) v = record {
  owned = λ i h. ground (arith, v.owned i, e, free);
  held = λ i h. ground (arith, v.held i, e);
  known = λ i h n. ground (arith, v.known i, e);
  nobody = ground (arith, v.nobody);
}
Move-Inv tid pc e ne mv v = record {
  owned = λ i h. ground (arith, v.owned i, v.owned tid, e);
  held = λ i h. ground (arith, v.held i, v.owned i, v.owned tid, e);
  known = λ i h n. ground (arith, v.known i, e);
  nobody = ground (arith, v.nobody);
}

Step-Inv : {s t : System} → Step s t → Inv s.mutex s.pc → Inv t.mutex t.pc
Step-Inv {s} (runs tid ne mv) v = Move-Inv tid s.pc refl ne mv v

Reach-Inv : {s : System} → Reach s → Inv s.mutex s.pc
Reach-Inv start = record {
  owned = λ i h. cc;
  held = λ i h. cc;
  known = λ i h n. absurd (n (sym h));
  nobody = refl;
}
Reach-Inv (later r st) = Step-Inv st (Reach-Inv r)

-- In every interleaving of threads that lock and unlock a mutex or wait with it, the identifiers of all of them
-- not 0: a thread passes `assertLocked` if and only if it is in the code that the lock protects, and
-- no two threads are between getting the mutex and letting it go.
pub Reach-holds :
    {s : System}
    → Reach s
    → (i j : ℕ) → i ≢ 0
    → ((assert_locked i s.mutex ≡ ok tt) ↔ (is_inside (s.pc i) ≡ true))
      × (owns (s.pc i) ≡ true → owns (s.pc j) ≡ true → i ≡ j)
unfolding assert_locked is_locked_by_this_thread
Reach-holds {s} r i j ne =
    let v = Reach-Inv r in
    (ground (arith, v.held i, v.known i), λ p q. ground (arith, v.owned i, v.owned j))
