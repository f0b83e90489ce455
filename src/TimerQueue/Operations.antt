-- ===== src/TimerQueue/Operations.antt =====
-- Adding, cancelling and retiring timers of SrcFile/TimerQueue.c meet no failed assertion and no pointer
-- that is not alive.
use simple_net_base.Prelude.{ℕ, ◌≡◌, true, some, length, lookup, ==_iff, ok}
use simple_net_base.StdSet
use simple_net_base.StdSet.{
  In, IsSorted, contains, contains-In, In-contains, before, from_bound, before-append_from,
}
use simple_net_base.StdSet.Laws.{not_contains}
use simple_net_base.TimerQueue.{
  Timer, entry_lt, active_lt, TimerQueue, insert, is_earliest, timer_at, same_size,
}
use simple_net_base.TimerQueue.Invariant.{Heap, IsIdle, Inv, entry_order, active_order, idle_entry}
use simple_net_base.TimerQueue.Changes.{Inv-inserted}

abbrev pub Owns : (ℕ → Type 0) → TimerQueue → Type 0
Owns Out q = Inv Out q.timers q.active_timers q.heap

pub timer_at-some : (p : ℕ) (h : Heap) (t : Timer) → lookup p h ≡ some t → timer_at p h ≡ ok t
timer_at-some p h t l = rw (l, timer_at)

pub sizes-same : (q : TimerQueue) → length q.timers ≡ length q.active_timers → same_size q ≡ true
sizes-same q h = (==_iff _ _).1 h

abbrev inserted : ℕ → Timer → TimerQueue → TimerQueue
inserted p t q = record q {
  timers = StdSet.insert entry_lt (t.expiration, p) q.timers;
  active_timers = StdSet.insert active_lt (p, t.sequence) q.active_timers;
}

module _ {Out : ℕ → Type 0} (q : TimerQueue) (v : Owns Out q) (p : ℕ) where
  pub insert-inserted :
      (t : Timer)
      → lookup p q.heap ≡ some t
      → IsIdle p q.active_timers
      → insert p q ≡ ok (is_earliest t.expiration q.timers, inserted p t q)
  unfolding insert
  insert-inserted t l idle = rw (
    sizes-same q v.sizes,
    timer_at-some p q.heap t l,
    not_contains entry_lt entry_order _ q.timers (idle_entry v t.expiration p idle),
    not_contains active_lt active_order _ q.active_timers (idle t.sequence),
    sizes-same (inserted p t q) (Inv-inserted v p t l idle).sizes,
  )
