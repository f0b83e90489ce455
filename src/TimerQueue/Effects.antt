-- ===== src/TimerQueue/Effects.antt =====
-- What adding and cancelling do to the sets and to the timer descriptor of SrcFile/TimerQueue.c, and the
-- value that the descriptor is set to.
use simple_net_base.Prelude.{
  ℕ, ◌+◌, ◌*◌, ◌/◌, ◌%◌, ◌<◌, ◌≤◌, ◌≡◌, ◌≢◌, ◌↔◌, refl, sym, ap, subst, Bool, true, false, ◌⊎◌, inl,
  inr, List, [], ◌∷◌, some, arith, lookup, ok, Returns, Returns-bind, if◌then◌else◌, Bool-cases,
}
use simple_net_base.Prelude.Assoc
use simple_net_base.Prelude.Int.{ℤ, pos, pos_part, ltb_ℤ, ◌-ℤ◌}
use simple_net_base.StdSet
use simple_net_base.StdSet.{In, IsSorted, contains, contains-In, In-contains}
use simple_net_base.StdSet.Laws.{In-insert, insert-In, In-erase, erase-In, In-erase_ne}
use simple_net_base.TimerQueue.{
  Timer, Entry, ActiveTimer, entry_lt, active_lt, TimerQueue, cancel_active, cancel_unknown,
  cancel_in_loop, add_timer_in_loop, is_earliest, reset_timerfd, how_much_time_from_now, delete,
}
use simple_net_base.TimerQueue.Invariant.{Inv, IsIdle, entry_order, active_order}
use simple_net_base.TimerQueue.Changes.{Inv-canceled, Inv-inserted}
use simple_net_base.TimerQueue.Operations.{Owns, timer_at-some, insert-inserted, sizes-same}

differ : {b : Bool} → b ≡ true → b ≡ false → ⊥
differ h g = cc

-- The active timers are those of before, without one.
abbrev pub Without : ℕ → ℕ → TimerQueue → TimerQueue → Type 0
Without p s q r = (x : ActiveTimer) → In x r.active_timers ↔ (In x q.active_timers × (x ≢ (p, s)))

-- Apart from the set of what is being cancelled, an unknown identifier changes nothing.
abbrev pub Untouched : TimerQueue → TimerQueue → Type 0
Untouched q r =
    (r.heap ≡ q.heap)
    × (r.timers ≡ q.timers)
    × (r.active_timers ≡ q.active_timers)
    × (r.armed ≡ q.armed)

module _ {Out : ℕ → Type 0} (q : TimerQueue) (v : Owns Out q) (p s : ℕ) where
  abbrev pub Canceled : TimerQueue → Type 0
  Canceled r =
      Owns Out r
      × Without p s q r
      × (contains active_lt (p, s) q.active_timers ≡ false → Untouched q r)

  same-Without :
      (x : ActiveTimer)
      → contains active_lt (p, s) q.active_timers ≡ false
      → In x q.active_timers
      → x ≢ (p, s)
  same-Without x h i e =
      differ
        (contains-In active_lt active_order (p, s) q.active_timers v.active_sorted
          (subst (λ y. In y q.active_timers) e i))
        h

  known-Canceled : In (p, s) q.active_timers → Returns Canceled (cancel_active p s q)
  unfolding cancel_active delete
  known-Canceled i =
      let (t, l, e, j) = v.active p s i in
      rw (timer_at-some p q.heap t l, contains-In entry_lt entry_order _ q.timers v.sorted j)
        (
          subst
              (λ x.
                Inv Out (StdSet.erase entry_lt (t.expiration, p) q.timers)
                  (StdSet.erase active_lt (p, x) q.active_timers) (Assoc.erase p q.heap))
              e (Inv-canceled v p t l (subst (λ x. In (p, x) q.active_timers) (sym e) i)),
          (λ x. (
            (λ k. (
              In-erase active_lt active_order (p, s) x q.active_timers k,
              In-erase_ne active_lt active_order (p, s) x q.active_timers v.active_sorted k,
            )),
            λ k. erase-In active_lt active_order (p, s) x q.active_timers k.0 k.1,
          )),
          (λ h.
              let k = contains-In active_lt active_order (p, s) q.active_timers v.active_sorted i in
              absurd (differ k h)),
        )

  unknown-Canceled :
      contains active_lt (p, s) q.active_timers ≡ false → Canceled (cancel_unknown p s q)
  unfolding cancel_unknown
  unknown-Canceled h = elim (Bool-cases q.calling_expired_timers) [
    | inl calling ↦
        rw calling
          (v, (λ x. ((λ k. (k, same-Without x h k)), λ k. k.0)), λ g. (refl, refl, refl, refl))
    | inr quiet ↦
        rw quiet
          (v, (λ x. ((λ k. (k, same-Without x h k)), λ k. k.0)), λ g. (refl, refl, refl, refl))
  ]

  -- On a queue with the invariant, cancelling any identifier, also one whose timer is gone or whose address
  -- another timer has by now, meets no failed assertion and no dead pointer and keeps the invariant; the
  -- active timers are then those of before without the one with this address and sequence number, and if
  -- that was not active, the heap, both sets and the timer descriptor are as they were.
  pub cancel_in_loop-Canceled : Returns Canceled (cancel_in_loop p s q)
  unfolding cancel_in_loop
  cancel_in_loop-Canceled = rw (sizes-same q v.sizes) (
      Returns-bind Canceled Canceled
        (if contains active_lt (p, s) q.active_timers
          then cancel_active p s q
          else ok (cancel_unknown p s q))
        _
        (elim (Bool-cases (contains active_lt (p, s) q.active_timers)) [
          | inl known ↦ rw known (known-Canceled (In-contains active_lt active_order _ _ known))
          | inr unknown ↦ rw unknown (unknown-Canceled unknown)
        ])
        λ r w. rw (sizes-same r w.0.sizes) w)

-- Every entry is later than the time, or some entry is not.
abbrev pub IsBefore : ℤ → List Entry → Type 0
IsBefore when ts = (e : ℤ) (x : ℕ) → In (e, x) ts → ltb_ℤ when e ≡ true

is_earliest-IsBefore : (when : ℤ) (ts : List Entry) → IsBefore when ts → is_earliest when ts ≡ true
is_earliest-IsBefore when [] h = refl
is_earliest-IsBefore when ((e, x) ∷ ts) h = h e x (inl refl)

not_earliest :
    (when : ℤ) (ts : List Entry) (e : ℤ) (x : ℕ)
    → IsSorted entry_lt ts
    → In (e, x) ts
    → ltb_ℤ when e ≡ false
    → is_earliest when ts ≡ false
unfolding entry_lt
not_earliest when [] e x s i h = elim i [ ]
not_earliest when ((f, y) ∷ ts) e x s (inl same) h =
    subst (λ z. ltb_ℤ when z ≡ false) (sym (ap (λ z. z.0) same)) h
not_earliest when ((f, y) ∷ ts) e x s (inr i) h = ground (arith, s.0 (e, x) i, h)

module _ {Out : ℕ → Type 0} (q : TimerQueue) (v : Owns Out q) (p : ℕ) (t : Timer) (clock : ℤ) where
  abbrev pub Added : TimerQueue → Type 0
  Added r =
      Owns (λ x. Out x × (x ≢ p)) r
      × ((x : Entry) → In x r.timers ↔ (((t.expiration, p) ≡ x) ⊎ In x q.timers))
      × (IsBefore t.expiration q.timers
          → r.armed ≡ some (t.expiration, how_much_time_from_now t.expiration clock))
      × ((e : ℤ) (x : ℕ) → In (e, x) q.timers → ltb_ℤ t.expiration e ≡ false → r.armed ≡ q.armed)

  -- Adding a timer that is on the heap and in neither set meets no failed assertion and keeps the
  -- invariant, the timer being in both sets then; the entries are those of before and the timer's, and the
  -- timer descriptor is set for its expiration if every other entry is later, and is left alone if some
  -- entry is not.
  pub add_timer_in_loop-Added :
      lookup p q.heap ≡ some t
      → IsIdle p q.active_timers
      → Returns Added (add_timer_in_loop clock p q)
  unfolding add_timer_in_loop reset_timerfd
  add_timer_in_loop-Added l idle =
      let w = Inv-inserted v p t l idle in
      let entries : (x : Entry)
          → In x (StdSet.insert entry_lt (t.expiration, p) q.timers)
            ↔ (((t.expiration, p) ≡ x) ⊎ In x q.timers) =
        λ x. (
          In-insert entry_lt entry_order (t.expiration, p) x q.timers,
          insert-In entry_lt entry_order (t.expiration, p) x q.timers,
        ) in
      rw (timer_at-some p q.heap t l, insert-inserted q v p t l idle)
        (elim (Bool-cases (is_earliest t.expiration q.timers)) [
          | inl first ↦ rw first (
            w,
            entries,
            (λ h. refl),
            λ e x i h. absurd (differ first (not_earliest t.expiration q.timers e x v.sorted i h)),
          )
          | inr later ↦ rw later (
            w,
            entries,
            (λ h. absurd (differ (is_earliest-IsBefore t.expiration q.timers h) later)),
            λ e x i h. refl,
          )
        ])

-- The nanoseconds of a timespec.
abbrev pub nanoseconds : ℤ → ℤ → ℕ
nanoseconds when now =
    (how_much_time_from_now when now).tv_sec * 1000000000
    + (how_much_time_from_now when now).tv_nsec

nsec_small : (m : ℕ) → m % 1000000 * 1000 < 1000000000
nsec_small m = omega arith

whole : (m : ℕ) → m / 1000000 * 1000000000 + m % 1000000 * 1000 ≡ m * 1000
whole m = omega arith

-- The timespec is normal, and tells the whole of the microseconds from now to then, but 100 at least.
pub how_much_time_from_now-normal :
    (when now : ℤ)
    → ((how_much_time_from_now when now).tv_nsec < 1000000000)
      × (100000 ≤ nanoseconds when now)
      × (ltb_ℤ (when -ℤ now) (pos 100) ≡ false
          → nanoseconds when now ≡ pos_part (when -ℤ now) * 1000)
unfolding how_much_time_from_now
how_much_time_from_now-normal when now =
    let d : ℤ = when -ℤ now in
    elim (Bool-cases (ltb_ℤ d (pos 100))) [
      | inl soon ↦ rw soon (omega arith, omega arith, λ h. cc)
      | inr later ↦
          let m : ℕ = pos_part d in
          let enough : 100 ≤ m = ground (arith, later) in
          rw later (nsec_small m, omega (arith, whole m, enough), λ h. whole m)
    ]
