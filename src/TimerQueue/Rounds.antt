-- ===== src/TimerQueue/Rounds.antt =====
-- `handleRead` and `reset` of SrcFile/TimerQueue.c, with the callbacks that add and cancel timers.
use simple_net_base.Prelude.{
  ℕ, ◌+◌, ◌<◌, ◌≡◌, ◌≢◌, refl, sym, ap, subst, Bool, true, false, not, ◌&&◌, ◌⊎◌, inl, inr, List,
  [], ◌∷◌, ◌++◌, Option, none, some, lookup, ok, ◌>>=◌, Returns, Returns-bind, Returns-mono,
  Barring, Barring-bind, Returns-Barring, bad_alloc, if◌then◌else◌, Bool-cases,
}
use simple_net_base.Prelude.Assoc
use simple_net_base.Prelude.Int.{ℤ, pos}
use simple_net_base.StdSet.{In, contains}
use simple_net_base.TimerQueue.{
  Timer, Entry, active_lt, uintptr_max, TimerQueue, TimerCall, adds, cancels, new_at, new_timer,
  add_timer_in_loop, cancel_in_loop, run_call, run_calls, run_expired, reset_one, reset_all,
  next_expire, reset, handle_read, get_expired, restart, delete, valid, reset_timerfd, add_time,
  how_much_time_from_now,
}
use simple_net_base.TimerQueue.Invariant.{Heap, IsIdle, Inv-weaken, idle_entry}
use simple_net_base.TimerQueue.Changes.{Inv-inserted, heap-same}
use simple_net_base.TimerQueue.Idle.{Inv-allocated, Inv-changed, Inv-deleted}
use simple_net_base.TimerQueue.Operations.{Owns, timer_at-some, insert-inserted}
use simple_net_base.TimerQueue.Effects.{
  Canceled, cancel_in_loop-Canceled, Added, add_timer_in_loop-Added,
}
use simple_net_base.TimerQueue.Expiry.{
  addresses, append-In, AllDistinct, In-addresses, Taken, get_expired-Taken,
}

-- The timer descriptor has been set for the first entry, if its time is a valid one.
abbrev pub IsArmed : ℤ → TimerQueue → Type 0
IsArmed clock q =
    (e : ℤ) (p : ℕ) (es : List Entry)
    → q.timers ≡ (e, p) ∷ es
    → valid e ≡ true
    → q.armed ≡ some (e, how_much_time_from_now e clock)

abbrev first_expiration : List Entry → ℤ
first_expiration [] = pos 0
first_expiration ((e, p) ∷ es) = e

-- What is outside the sets is not taken out of them.
not_taken :
    {Out : ℕ → Type 0} (q : TimerQueue) (v : Owns Out q) (es rest : List Entry) (x : ℕ)
    → es ++ rest ≡ q.timers
    → Out x
    → In x (addresses es)
    → ⊥
not_taken q v es rest x parts o i =
    let (t, l, idle) = v.outside x o in
    let (e, j) = In-addresses x es i in
    idle_entry v e x idle (subst (λ ts. In (e, x) ts) parts (append-In (e, x) es rest j))

-- An allocator: an address below UINTPTR_MAX that is not in use, or none.
abbrev pub IsFresh : (Heap → Option ℕ) → Type 0
IsFresh malloc = (h : Heap) (p : ℕ) → malloc h ≡ some p → (lookup p h ≡ none) × (p < uintptr_max)

module _ (malloc : Heap → Option ℕ) (fresh : IsFresh malloc) where
  module _ {Out : ℕ → Type 0} where
    added :
        (p : ℕ) (t : Timer) (clock : ℤ) (q : TimerQueue)
        → Owns Out q
        → lookup p q.heap ≡ none
        → p < uintptr_max
        → Returns (Owns Out) (
            add_timer_in_loop clock p
              (record q { heap = Assoc.insert p t q.heap; num_created = q.num_created + 1 }))
    added p t clock q v free small =
        let w = Inv-allocated v p t free small in
        let r : TimerQueue = record q {
          heap = Assoc.insert p t q.heap;
          num_created = q.num_created + 1;
        } in
        Returns-mono (Added {Out = λ x. Out x ⊎ (x ≡ p)} r w p t clock) (Owns Out)
          (add_timer_in_loop clock p r)
          (add_timer_in_loop-Added {Out = λ x. Out x ⊎ (x ≡ p)} r w p t clock (heap-same p t q.heap)
            (λ s i. let (u, k, x, j) = v.active p s i in cc))
          λ u z. Inv-weaken z.0 λ x o. (inl o, λ same. let (y, k, away) = v.outside x o in cc)

    new_at-Owns :
        (o : Option ℕ) (callback : ℕ) (when delta : ℤ) (repeat : Bool) (clock : ℤ) (q : TimerQueue)
        → Owns Out q
        → malloc q.heap ≡ o
        → Barring bad_alloc
            (Owns Out)
            (new_at o callback when delta repeat q >>= λ (p, r). add_timer_in_loop clock p r)
    unfolding new_at
    new_at-Owns none callback when delta repeat clock q v e = refl
    new_at-Owns (some p) callback when delta repeat clock q v e =
        Returns-Barring bad_alloc (Owns Out) (Owns Out) _
          (added p _ clock q v (fresh q.heap p e).0 (fresh q.heap p e).1) (λ r w. w)

    run_call-Owns :
        (k : TimerCall) (q : TimerQueue)
        → Owns Out q
        → Barring bad_alloc (Owns Out) (run_call malloc k q)
    unfolding run_call new_timer
    run_call-Owns (cancels p s) q v =
        Returns-Barring bad_alloc (Canceled q v p s) (Owns Out) (cancel_in_loop p s q)
          (cancel_in_loop-Canceled q v p s) (λ r c. c.0)
    run_call-Owns (adds callback when delta repeat clock) q v =
        new_at-Owns (malloc q.heap) callback when delta repeat clock q v refl

    run_calls-Owns :
        (ks : List TimerCall) (q : TimerQueue)
        → Owns Out q
        → Barring bad_alloc (Owns Out) (run_calls malloc ks q)
    unfolding run_calls
    run_calls-Owns [] q v = v
    run_calls-Owns (k ∷ ks) q v =
        Barring-bind bad_alloc (Owns Out) (Owns Out) (run_call malloc k q) (run_calls malloc ks)
          (run_call-Owns k q v) (λ r w. run_calls-Owns ks r w)

  module _ (client : ℕ → TimerQueue → List TimerCall) where
    run_expired-Owns :
        (es : List Entry) {Out : ℕ → Type 0} (q : TimerQueue)
        → Owns Out q
        → ((p : ℕ) → In p (addresses es) → Out p)
        → Barring bad_alloc (Owns Out) (run_expired malloc client es q)
    unfolding run_expired
    run_expired-Owns [] q v f = v
    run_expired-Owns ((e, p) ∷ es) {Out} q v f =
        let (t, l, away) = v.outside p (f p (inl refl)) in
        rw (timer_at-some p q.heap t l) (
          Barring-bind bad_alloc (Owns Out) (Owns Out) (run_calls malloc (client t.callback q) q)
            (run_expired malloc client es) (run_calls-Owns (client t.callback q) q v)
            (λ r w. run_expired-Owns es r w (λ x i. f x (inr i))))

    reset_one-Owns :
        {Out : ℕ → Type 0} (now : ℤ) (p : ℕ) (t : Timer) (q : TimerQueue)
        → Owns Out q
        → lookup p q.heap ≡ some t
        → IsIdle p q.active_timers
        → Returns (Owns (λ x. Out x × (x ≢ p))) (reset_one malloc client now p t q)
    unfolding reset_one restart delete
    reset_one-Owns {Out} now p t q v l idle =
        elim (Bool-cases
          (t.repeat && not (contains active_lt (p, t.sequence) q.canceling_timers))) [
            | inl again ↦
                let u : Timer = record t {
                  expiration = if t.repeat then add_time now t.delta else pos 0;
                } in
                let w = Inv-changed v p u l idle in
                let k = heap-same p u q.heap in
                rw (again, insert-inserted (restart now p t q) w p u k idle)
                  (Inv-inserted w p u k idle)
            | inr gone ↦ rw gone (Inv-deleted v p t idle)
          ]

    reset_all-Owns :
        (es : List Entry) {Out : ℕ → Type 0} (now : ℤ) (q : TimerQueue)
        → Owns Out q
        → ((p : ℕ) → In p (addresses es) → Out p)
        → AllDistinct (addresses es)
        → Returns (Owns (λ x. Out x × (In x (addresses es) → ⊥))) (reset_all malloc client es now q)
    unfolding reset_all
    reset_all-Owns [] now q v f d = Inv-weaken v (λ x o. o.0)
    reset_all-Owns ((e, p) ∷ es) {Out} now q v f d =
        let (t, l, away) = v.outside p (f p (inl refl)) in
        rw (timer_at-some p q.heap t l) (
          Returns-bind (Owns (λ x. Out x × (x ≢ p))) _ (reset_one malloc client now p t q) _
            (reset_one-Owns now p t q v l away)
            λ r w.
              Returns-mono _ _ (reset_all malloc client es now r)
                (reset_all-Owns es now r w
                  (λ x i. (f x (inr i), λ same. d.0 (subst (λ y. In y (addresses es)) same i))) d.1)
                λ u z.
                  Inv-weaken z (λ x o. ((o.0, λ same. o.1 (inl (sym same))), λ i. o.1 (inr i))))

    next_expire-first :
        {Out : ℕ → Type 0} (ts : List Entry) (q : TimerQueue)
        → Owns Out q
        → q.timers ≡ ts
        → next_expire malloc client q ≡ ok (first_expiration ts)
    unfolding next_expire
    next_expire-first [] q v h = rw h refl
    next_expire-first ((e, p) ∷ es) q v h =
        let (t, l, x, i) = v.queued e p (subst (λ a. In (e, p) a) (sym h) (inl refl)) in
        rw (h, timer_at-some p q.heap t l, x) refl

    reset-Owns :
        {Out : ℕ → Type 0} (es : List Entry) (now clock : ℤ) (q : TimerQueue)
        → Owns Out q
        → ((p : ℕ) → In p (addresses es) → Out p)
        → AllDistinct (addresses es)
        → Returns
            (λ r. Owns (λ x. Out x × (In x (addresses es) → ⊥)) r × IsArmed clock r)
            (reset malloc client es now clock q)
    unfolding reset reset_timerfd
    reset-Owns es now clock q v f d =
        Returns-bind _ _ (reset_all malloc client es now q) _ (reset_all-Owns es now q v f d) λ r w.
          rw (next_expire-first r.timers r w refl)
            (elim (Bool-cases (valid (first_expiration r.timers))) [
              | inl on ↦ rw on (
                w,
                λ e p rest same good.
                    ap (λ x. some (x, how_much_time_from_now x clock)) (ap first_expiration same),
              )
              | inr off ↦ rw off (
                w,
                λ e p rest same good.
                    let k : valid (first_expiration r.timers) ≡ valid e =
                      ap (λ ts. valid (first_expiration ts)) same in
                    cc,
              )
            ])

    -- With an allocator that gives unused addresses or none, and callbacks that add and cancel timers in
    -- any way: `handleRead` on a queue with the invariant meets no failed assertion and no dead pointer;
    -- unless a callback's `new` throws, it returns, leaves the invariant with the same timers outside the
    -- sets, and leaves the timer descriptor set for the first entry, if there is one and its time is valid.
    pub handle_read-Owns :
        {Out : ℕ → Type 0} (now clock : ℤ) (q : TimerQueue)
        → Owns Out q
        → Barring bad_alloc
            (λ r. Owns Out r × IsArmed clock r)
            (handle_read malloc client now clock q)
    unfolding handle_read
    handle_read-Owns {Out} now clock q v =
        Barring-bind bad_alloc (Taken Out now q) _ (get_expired now q) _
          (Returns-Barring bad_alloc _ (Taken Out now q) (get_expired now q)
            (get_expired-Taken now q v) (λ r t. t))
          λ (es, r1) (w, parts, due, late, d).
            let r2 : TimerQueue = record r1 {
              calling_expired_timers = true;
              canceling_timers = [];
            } in
            Barring-bind bad_alloc (Owns (λ x. Out x ⊎ In x (addresses es))) _
              (run_expired malloc client es r2) _ (run_expired-Owns es r2 w (λ p i. inr i))
              λ r3 u.
                let r4 : TimerQueue = record r3 { calling_expired_timers = false } in
                Returns-Barring bad_alloc _ _ (reset malloc client es now clock r4)
                  (reset-Owns es now clock r4 u (λ p i. inr i) d)
                  λ r z. (
                    Inv-weaken z.0 (λ x o. (inl o, λ i. not_taken q v es r1.timers x parts o i)),
                    z.1,
                  )
