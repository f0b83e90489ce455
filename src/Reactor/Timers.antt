-- ===== src/Reactor/Timers.antt =====
-- The timer calls of SrcFile/EventLoop.c, in the loop's thread and in another.
use simple_net_base.Prelude.{
  ℕ, ◌+◌, ◌<◌, ◌≡◌, ◌⊎◌, refl, ap, Bool, true, false, [], ◌∷◌, ◌++◌, Option, none, some, ◌==◌, inl,
  inr, lookup, Returns, Returns-bind, Barring, Returns-mono, Result, Returns-Barring, bad_alloc,
  ◌>>=◌, >>=_assoc, ok, fault, dangling, sym, subst,
}
use simple_net_base.Prelude.Assoc
use simple_net_base.Prelude.Int.{ℤ}
use simple_net_base.StdSet.{In}
use simple_net_base.Functor.{Functor}
use simple_net_base.EventLoop.{is_in_loop_thread, queue_in_loop, run_in_loop, wakeup}
use simple_net_base.TimerQueue.{
  Timer, TimerQueue, uintptr_max, new_at, new_timer, timer_at, add_timer_in_loop,
}
use simple_net_base.TimerQueue.Invariant.{Heap, Inv-weaken}
use simple_net_base.TimerQueue.Changes.{heap-same}
use simple_net_base.TimerQueue.Idle.{Inv-allocated}
use simple_net_base.TimerQueue.Operations.{Owns, timer_at-some}
use simple_net_base.TimerQueue.Effects.{Added, add_timer_in_loop-Added}
use simple_net_base.TimerQueue.Rounds.{IsFresh}
use simple_net_base.Reactor.{Reactor, identified, add_timer}
use simple_net_base.Reactor.Ends.{IsSound}

-- The timer `p` with the sequence number `s` is queued for `when`, and nothing else of the loop changes.
abbrev pub IsQueued : (ℕ → Type 0) → ℤ → Reactor → (ℕ × ℕ) × Reactor → Type 0
IsQueued Out when r ((p, s), r') =
    IsSound Out r'
    × (r'.loop ≡ r.loop)
    × In (when, p) r'.timers.timers
    × In (p, s) r'.timers.active_timers

-- In the loop's thread: at a new address, queued.
abbrev pub Scheduled : (ℕ → Type 0) → ℤ → Reactor → (ℕ × ℕ) × Reactor → Type 0
Scheduled Out when r x = (lookup x.0.0 r.timers.heap ≡ none) × IsQueued Out when r x

-- The timer `p`, at a new address, exists, the loop has been woken, and the functor that will queue the timer
-- is its last one.
abbrev pub IsPosted : (ℕ → Type 0) → Reactor → ℕ → Reactor → Type 0
IsPosted Out r p r' =
    (lookup p r.timers.heap ≡ none)
    × IsSound (λ x. Out x ⊎ (x ≡ p)) r'
    × (r'.timers.timers ≡ r.timers.timers)
    × (r'.loop.pending_functors ≡ r.loop.pending_functors ++ Functor.add_timer_in_loop p ∷ [])
    × (r'.loop.wakeups ≡ r.loop.wakeups + 1)

-- The number of the timer `p` is read from the loop `r`.
abbrev pub ReadFrom : ℕ → Reactor → Result ((ℕ × ℕ) × Reactor) → Type 0
ReadFrom p r m =
    (lookup p r.timers.heap ≡ none → m ≡ fault dangling)
    × ((t : Timer) → lookup p r.timers.heap ≡ some t → m ≡ ok ((p, t.sequence), r))

-- In another thread: no memory, or a timer that is handed over, and read when the loop has gone on.
abbrev pub HandedOver :
    (ℕ → Type 0) → (Reactor → Reactor) → Reactor → Result ((ℕ × ℕ) × Reactor) → Type 0
HandedOver Out meanwhile r m =
    (m ≡ fault bad_alloc)
    ⊎ ((p : ℕ) × (r2 : Reactor) × IsPosted Out r p r2 × ReadFrom p (meanwhile r2) m)

timer_at-none : (p : ℕ) (h : Heap) → lookup p h ≡ none → timer_at p h ≡ fault dangling
timer_at-none p h e = rw (e, timer_at) refl

read_from : (p : ℕ) (r : Reactor) → ReadFrom p r (identified p r)
unfolding identified
read_from p r = (
  (λ e. ap (λ m. m >>= λ u. ok ((p, u.sequence), r)) (timer_at-none p r.timers.heap e)),
  λ t e. ap (λ m. m >>= λ u. ok ((p, u.sequence), r)) (timer_at-some p r.timers.heap t e),
)

module _ {Out : ℕ → Type 0} (r : Reactor) (v : IsSound Out r) where
  -- The same channels with other timers, or another loop with the same poller.
  with_timers :
      {Other : ℕ → Type 0} (q : TimerQueue) → Owns Other q → IsSound Other (record r { timers = q })
  with_timers q w = record {
    wakeup_tracked = v.wakeup_tracked;
    timer_tracked = v.timer_tracked;
    distinct = v.distinct;
    quiet = v.quiet;
    wakeup_idle = v.wakeup_idle;
    timer_idle = v.timer_idle;
    owns = w;
  }

  module _ (p : ℕ) (t : Timer) (free : lookup p r.timers.heap ≡ none)
      (small : p < uintptr_max) where
    abbrev grown : TimerQueue
    grown = record r.timers {
      heap = Assoc.insert p t r.timers.heap;
      num_created = r.timers.num_created + 1;
    }

    grown-Owns : Owns (λ x. Out x ⊎ (x ≡ p)) grown
    grown-Owns = Inv-allocated v.owns p t free small

    -- Queued, under the sequence number that its heap has.
    abbrev Taken : TimerQueue → Type 0
    Taken q =
        Owns Out q
        × (u : Timer) × (lookup p q.heap ≡ some u)
        × In (t.expiration, p) q.timers
        × In (p, u.sequence) q.active_timers

    add_timer_in_loop-Taken : (clock : ℤ) → Returns Taken (add_timer_in_loop clock p grown)
    add_timer_in_loop-Taken clock =
        Returns-mono (Added grown grown-Owns p t clock) Taken (add_timer_in_loop clock p grown)
          (add_timer_in_loop-Added grown grown-Owns p t clock (heap-same p t r.timers.heap)
            (λ s i. let (u, k, x, j) = v.owns.active p s i in cc))
          λ q a.
            let i = (a.1 (t.expiration, p)).1 (inl refl) in
            let (u, k, x, j) = a.0.queued t.expiration p i in
            (
              Inv-weaken a.0 (λ x o. (inl o, λ same. let (y, k, away) = v.owns.outside x o in cc)),
              u,
              k,
              i,
              j,
            )

    queued-Scheduled :
        (clock : ℤ)
        → Returns
            (Scheduled Out t.expiration r)
            (add_timer_in_loop clock p grown >>= λ q'. identified p (record r { timers = q' }))
    unfolding identified
    queued-Scheduled clock =
        Returns-bind Taken (Scheduled Out t.expiration r) (add_timer_in_loop clock p grown) _
          (add_timer_in_loop-Taken clock)
          λ q (w, u, k, i, j). rw (timer_at-some p q.heap u k) (free, (with_timers q w, refl, i, j))

    grown-IsPosted :
        (caller : ℕ)
        → (r.loop.thread_id == caller) ≡ false
        → IsPosted Out r p (record r {
          timers = grown;
          loop = queue_in_loop caller (Functor.add_timer_in_loop p) r.loop;
        })
    unfolding queue_in_loop wakeup
    grown-IsPosted caller other = rw other (
      free,
      record {
        wakeup_tracked = v.wakeup_tracked;
        timer_tracked = v.timer_tracked;
        distinct = v.distinct;
        quiet = v.quiet;
        wakeup_idle = v.wakeup_idle;
        timer_idle = v.timer_idle;
        owns = grown-Owns;
      },
      refl,
      refl,
      refl,
    )

module _ (malloc : Heap → Option ℕ) (fresh : IsFresh malloc) {Out : ℕ → Type 0} (r : Reactor)
    (v : IsSound Out r) (meanwhile : Reactor → Reactor) where
  module _ (caller callback : ℕ) (when delta : ℤ) (repeat : Bool) (clock : ℤ) where
    abbrev made : Timer
    made = record {
      callback = callback;
      expiration = when;
      delta = delta;
      repeat = repeat;
      sequence = r.timers.num_created + 1;
    }

    -- What follows the allocation, in the loop's thread and in another.
    allocated-Scheduled :
        (o : Option ℕ)
        → malloc r.timers.heap ≡ o
        → Barring bad_alloc (Scheduled Out when r) (
            new_at o callback when delta repeat r.timers >>= λ (p, q).
            (add_timer_in_loop clock p q >>= λ q'. ok (record r { timers = q' })) >>= identified p)
    unfolding new_at
    allocated-Scheduled none e = refl
    allocated-Scheduled (some p) e =
        let (free, small) = fresh r.timers.heap p e in
        rw
          (>>=_assoc (add_timer_in_loop clock p (grown r v p made free small))
            (λ q'. ok (record r { timers = q' })) (identified p))
          (Returns-Barring bad_alloc (Scheduled Out when r) (Scheduled Out when r) _
            (queued-Scheduled r v p made free small clock) (λ x w. w))

    abbrev handed : Option ℕ → Result ((ℕ × ℕ) × Reactor)
    handed o = new_at o callback when delta repeat r.timers >>= λ (p, q). identified p (
        meanwhile (record r {
          timers = q;
          loop = queue_in_loop caller (Functor.add_timer_in_loop p) r.loop;
        }))

    allocated-HandedOver :
        (o : Option ℕ)
        → malloc r.timers.heap ≡ o
        → (r.loop.thread_id == caller) ≡ false
        → HandedOver Out meanwhile r (handed o)
    unfolding new_at
    allocated-HandedOver none e other = inl refl
    allocated-HandedOver (some p) e other =
        let (free, small) = fresh r.timers.heap p e in
        inr (p, _, grown-IsPosted r v p made free small caller other, read_from p _)

    add_timer-handed :
        (r.loop.thread_id == caller) ≡ false
        → add_timer malloc meanwhile caller callback when delta repeat clock r
          ≡ handed (malloc r.timers.heap)
    unfolding add_timer new_timer run_in_loop is_in_loop_thread queue_in_loop
    add_timer-handed other = rw other refl

    -- On a sound loop, with an allocator that gives unused addresses below UINTPTR_MAX. In the loop's thread
    -- `addTimer` meets no failed assertion and no dead pointer, and, if memory lasts, the timer is at an
    -- address that no timer had and queued for its time, under the identifier that is returned, and the
    -- loop is sound. From another thread, if memory lasts, the queue is first as it was, the timer is kept
    -- outside of it at an address that no timer had, the functor that will add it is the last pending
    -- one, and the loop has been woken. Then the loop goes on, in whatever way, before the sequence number is
    -- read: if the timer is still there, the identifier has its number; if the loop has deleted it by then,
    -- the read is through a dead pointer.
    pub add_timer-Scheduled :
        ((r.loop.thread_id == caller) ≡ true
          → Barring bad_alloc
              (Scheduled Out when r)
              (add_timer malloc meanwhile caller callback when delta repeat clock r))
        × ((r.loop.thread_id == caller) ≡ false
            → HandedOver Out meanwhile r
                (add_timer malloc meanwhile caller callback when delta repeat clock r))
    unfolding add_timer new_timer run_in_loop is_in_loop_thread
    add_timer-Scheduled = (
      (λ own. rw own (allocated-Scheduled (malloc r.timers.heap) refl)),
      λ other.
          subst (HandedOver Out meanwhile r) (sym (add_timer-handed other))
            (allocated-HandedOver (malloc r.timers.heap) refl other),
    )
