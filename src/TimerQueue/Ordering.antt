-- ===== src/TimerQueue/Ordering.antt =====
-- Two timers that reach the loop of SrcFile/TimerQueue.c in either order leave the same queue.
use simple_net_base.Prelude.{
  ℕ, ◌≡◌, ◌≢◌, ◌∙◌, refl, sym, ap, Bool, true, false, ◌&&◌, inl, inr, List, [], ◌∷◌, Option, some,
  arith, lookup, ok, ◌>>=◌, if◌then◌else◌, Bool-cases,
}
use simple_net_base.Prelude.Int.{ℤ, ltb_ℤ, eq_of_parts}
use simple_net_base.StdSet
use simple_net_base.StdSet.{In}
use simple_net_base.StdSet.Laws.{In-insert}
use simple_net_base.StdSet.Canonical.{insert_comm}
use simple_net_base.TimerQueue.{
  Timer, Entry, Timespec, TimerQueue, entry_lt, active_lt, is_earliest, add_timer_in_loop,
  reset_timerfd, how_much_time_from_now,
}
use simple_net_base.TimerQueue.Invariant.{IsIdle, entry_order, active_order}
use simple_net_base.TimerQueue.Changes.{Inv-inserted}
use simple_net_base.TimerQueue.Operations.{Owns, timer_at-some, insert-inserted}

-- The setting of the timer descriptor for a timer.
abbrev setting : Timer → ℤ → Option (ℤ × Timespec)
setting t clock = some (t.expiration, how_much_time_from_now t.expiration clock)

-- The queue with one more timer.
abbrev queued : ℕ → Timer → ℤ → TimerQueue → TimerQueue
queued p t clock q = record q {
  timers = StdSet.insert entry_lt (t.expiration, p) q.timers;
  active_timers = StdSet.insert active_lt (p, t.sequence) q.active_timers;
  armed = if is_earliest t.expiration q.timers then setting t clock else q.armed;
}

add_timer_in_loop-queued :
    {Out : ℕ → Type 0} (q : TimerQueue) (v : Owns Out q) (p : ℕ) (t : Timer) (clock : ℤ)
    → lookup p q.heap ≡ some t
    → IsIdle p q.active_timers
    → add_timer_in_loop clock p q ≡ ok (queued p t clock q)
unfolding add_timer_in_loop reset_timerfd
add_timer_in_loop-queued q v p t clock l idle =
    rw (timer_at-some p q.heap t l, insert-inserted q v p t l idle)
      (elim (Bool-cases (is_earliest t.expiration q.timers)) [
        | inl first ↦ rw first refl
        | inr later ↦ rw later refl
      ])

-- A time is before all entries and a new one if it is before the entries and before the new one.
is_earliest-insert :
    (e f : ℤ) (p : ℕ) (ts : List Entry)
    → is_earliest e (StdSet.insert entry_lt (f, p) ts) ≡ (is_earliest e ts && ltb_ℤ e f)
unfolding entry_lt StdSet.insert
is_earliest-insert e f p [] = ground arith
is_earliest-insert e f p ((g, x) ∷ ts) = ground arith

-- Of two times only one of which is before all entries, that one is before the other.
earlier :
    (e f : ℤ) (ts : List Entry)
    → is_earliest e ts ≡ true
    → is_earliest f ts ≡ false
    → ltb_ℤ e f ≡ true
earlier e f [] h k = cc
earlier e f ((g, x) ∷ ts) h k = ground (arith, h, k)

-- A choice between two settings does not depend on which is made first.
chosen :
    {A : Type 0} (bu bt ut tu : Bool) (x y old : A)
    → (bu ≡ true → bt ≡ false → ut ≡ true)
    → (bt ≡ true → bu ≡ false → tu ≡ true)
    → (ut ≡ true → tu ≡ false)
    → (ut ≡ false → tu ≡ false → x ≡ y)
    → (if bu && ut then x else (if bt then y else old))
      ≡ (if bt && tu then y else (if bu then x else old))
chosen true true true tu x y old a b c d = rw (c refl) refl
chosen true true false true x y old a b c d = refl
chosen true true false false x y old a b c d = sym (d refl refl)
chosen true false ut tu x y old a b c d = rw (a refl refl) refl
chosen false true ut tu x y old a b c d = rw (b refl refl) refl
chosen false false ut tu x y old a b c d = refl

module _ (t u : Timer) (clock : ℤ) where
  same_setting :
      ltb_ℤ u.expiration t.expiration ≡ false
      → ltb_ℤ t.expiration u.expiration ≡ false
      → setting u clock ≡ setting t clock
  same_setting h k =
      let e : t.expiration ≡ u.expiration =
        eq_of_parts t.expiration u.expiration (ground (arith, h, k)) in
      cc

  armed_comm :
      (q : TimerQueue) (p r : ℕ)
      → (queued r u clock (queued p t clock q)).armed
        ≡ (queued p t clock (queued r u clock q)).armed
  armed_comm q p r =
      rw
        (
          is_earliest-insert u.expiration t.expiration p q.timers,
          is_earliest-insert t.expiration u.expiration r q.timers,
        )
        (chosen (is_earliest u.expiration q.timers) (is_earliest t.expiration q.timers)
          (ltb_ℤ u.expiration t.expiration) (ltb_ℤ t.expiration u.expiration) (setting u clock)
          (setting t clock) q.armed (earlier u.expiration t.expiration q.timers)
          (earlier t.expiration u.expiration q.timers) (λ h. ground (arith, h)) same_setting)

module _ {Out : ℕ → Type 0} (q : TimerQueue) (v : Owns Out q) where
  queued_comm :
      (p r : ℕ) (t u : Timer) (clock : ℤ)
      → queued r u clock (queued p t clock q) ≡ queued p t clock (queued r u clock q)
  queued_comm p r t u clock =
      let a =
        insert_comm entry_lt entry_order (u.expiration, r) (t.expiration, p) q.timers v.sorted in
      let b =
        insert_comm active_lt active_order (r, u.sequence) (p, t.sequence) q.active_timers
          v.active_sorted in
      let c = armed_comm t u clock q p r in cc

  still-IsIdle :
      (p r s : ℕ)
      → p ≢ r
      → IsIdle r q.active_timers
      → IsIdle r (StdSet.insert active_lt (p, s) q.active_timers)
  still-IsIdle p r s other idle x i =
      elim (In-insert active_lt active_order (p, s) (r, x) q.active_timers i) [
        | inl e ↦ other (ap (λ z. z.0) e)
        | inr j ↦ idle x j
      ]

  both :
      (p r : ℕ) (t u : Timer) (clock : ℤ)
      → p ≢ r
      → lookup p q.heap ≡ some t
      → lookup r q.heap ≡ some u
      → IsIdle p q.active_timers
      → IsIdle r q.active_timers
      → (add_timer_in_loop clock p q >>= add_timer_in_loop clock r)
        ≡ ok (queued r u clock (queued p t clock q))
  both p r t u clock other l k idle idle2 = rw (add_timer_in_loop-queued q v p t clock l idle) (
      add_timer_in_loop-queued (queued p t clock q) (Inv-inserted v p t l idle) r u clock k
        (still-IsIdle p r t.sequence other idle2))

  -- On a queue with the invariant and two timers on the heap that are in neither set, at one reading of the
  -- clock: adding the one and then the other leaves exactly what adding them in the other order
  -- leaves, the setting of the timer descriptor included.
  pub add_timer_in_loop_comm :
      (p r : ℕ) (t u : Timer) (clock : ℤ)
      → p ≢ r
      → lookup p q.heap ≡ some t
      → lookup r q.heap ≡ some u
      → IsIdle p q.active_timers
      → IsIdle r q.active_timers
      → (add_timer_in_loop clock p q >>= add_timer_in_loop clock r)
        ≡ (add_timer_in_loop clock r q >>= add_timer_in_loop clock p)
  add_timer_in_loop_comm p r t u clock other l k idle idle2 =
      both p r t u clock other l k idle idle2
      ∙ ap ok (queued_comm p r t u clock)
      ∙ sym (both r p u t clock (λ e. other (sym e)) k l idle2 idle)
