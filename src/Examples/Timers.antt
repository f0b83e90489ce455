-- ===== src/Examples/Timers.antt =====
-- A queue of SrcFile/TimerQueue.c with a timer that repeats and one that does not, whose callbacks add
-- and cancel timers.
use simple_net_base.Prelude.{
  ℕ, ◌<◌, ◌≡◌, refl, true, false, inl, inr, List, [], ◌∷◌, Option, none, some, arith, Returns,
  Barring, bad_alloc, subst, sym, lookup, ap, if◌then◌else◌, ◌==◌, ◌≢◌, ◌>>=◌,
}
use simple_net_base.Prelude.Int.{pos}
use simple_net_base.StdSet.{In}
use simple_net_base.TimerQueue.{
  Timer, TimerQueue, TimerCall, add_timer_in_loop, adds, cancels, cancel_in_loop, get_expired,
  handle_read, uintptr_max,
}
use simple_net_base.TimerQueue.Invariant.{Heap, IsIdle}
use simple_net_base.TimerQueue.Operations.{Owns}
use simple_net_base.TimerQueue.Expiry.{Taken, get_expired-Taken}
use simple_net_base.TimerQueue.Ordering.{add_timer_in_loop_comm}
use simple_net_base.Timestamp.{to_string, padded6, signed_decimal}
use simple_net_base.Prelude.Decimal.{snprintf, decimal}
use simple_net_base.TimerQueue.Effects.{Canceled, cancel_in_loop-Canceled}
use simple_net_base.TimerQueue.Rounds.{IsFresh, IsArmed, handle_read-Owns}

abbrev once : Timer
once = record { callback = 7; expiration = pos 200; delta = pos 0; repeat = false; sequence = 1 }

abbrev again : Timer
again = record { callback = 8; expiration = pos 300; delta = pos 1000; repeat = true; sequence = 2 }

-- The second timer has been made and not been added yet.
abbrev pub queue : TimerQueue
queue = record {
  heap = (64, once) ∷ (32, again) ∷ [];
  timers = (pos 200, 64) ∷ [];
  active_timers = (64, 1) ∷ [];
  canceling_timers = [];
  calling_expired_timers = false;
  num_created = 2;
  armed = none;
}

abbrev pub Waits : ℕ → Type 0
Waits p = p ≡ 32

low : (p : ℕ) (t : Timer) → lookup p queue.heap ≡ some t → p < uintptr_max
unfolding lookup
low p t h = ground (arith, h)

pub queue-Owns : Owns Waits queue
unfolding lookup
queue-Owns = record {
  sorted = ((λ y i. elim i [ ]), tt);
  active_sorted = ((λ y i. elim i [ ]), tt);
  sizes = refl;
  queued = λ e p i. elim i [
    | inl same ↦
        subst
          (λ x.
            (t : Timer) × (lookup x.1 queue.heap ≡ some t)
            × (t.expiration ≡ x.0)
            × In (x.1, t.sequence) queue.active_timers)
          same (once, refl, refl, inl refl)
    | inr b ↦ elim b [ ]
  ];
  active = λ p s i. elim i [
    | inl same ↦
        subst
          (λ x.
            (t : Timer) × (lookup x.0 queue.heap ≡ some t)
            × (t.sequence ≡ x.1)
            × In (t.expiration, x.0) queue.timers)
          same (once, refl, refl, inl refl)
    | inr b ↦ elim b [ ]
  ];
  outside = λ p o.
      subst (λ x. (t : Timer) × (lookup x queue.heap ≡ some t) × IsIdle x queue.active_timers)
        (sym o)
        (
          again,
          refl,
          λ s i. elim i [ inl e ↦ omega (arith, ap (λ x. x.0) e) | inr b ↦ elim b [ ] ],
        );
  low = low;
}

-- An allocator of one address.
abbrev pub one_address : Heap → Option ℕ
one_address h = elim (lookup 128 h) [ none ↦ some 128 | some t ↦ none ]

pub one_address-IsFresh : IsFresh one_address
one_address-IsFresh h p e = (ground (arith, e), ground (arith, e))

-- The first callback adds a timer and cancels itself and an unknown one, the other does nothing.
abbrev client : ℕ → TimerQueue → List TimerCall
client callback q =
    if callback == 7
    then adds 9 (pos 900) (pos 0) false (pos 251) ∷ cancels 64 1 ∷ cancels 96 5 ∷ []
    else []

handle_read-Owns_example :
    Barring bad_alloc
      (λ r. Owns Waits r × IsArmed (pos 260) r)
      (handle_read one_address client (pos 250) (pos 260) queue)
handle_read-Owns_example =
    handle_read-Owns one_address one_address-IsFresh client (pos 250) (pos 260) queue queue-Owns

get_expired-Taken_example : Returns (Taken Waits (pos 250) queue) (get_expired (pos 250) queue)
get_expired-Taken_example = get_expired-Taken (pos 250) queue queue-Owns

cancel_in_loop-Canceled_example :
    Returns (Canceled queue queue-Owns 64 1) (cancel_in_loop 64 1 queue)
cancel_in_loop-Canceled_example = cancel_in_loop-Canceled queue queue-Owns 64 1

-- A second and 234 microseconds.
second_text : to_string (pos 1_000_234) ≡ b'1' ∷ b'.' ∷ b'0' ∷ b'0' ∷ b'0' ∷ b'2' ∷ b'3' ∷ b'4' ∷ []
unfolding to_string padded6 signed_decimal snprintf decimal
second_text = refl

-- Neither timer has been added.
abbrev bare : TimerQueue
bare = record queue { timers = []; active_timers = [] }

bare-Owns : Owns Waits bare
unfolding lookup
bare-Owns = record {
  sorted = tt;
  active_sorted = tt;
  sizes = refl;
  queued = λ e p i. elim i [ ];
  active = λ p s i. elim i [ ];
  outside = λ p o.
      subst (λ x. (t : Timer) × (lookup x queue.heap ≡ some t) × IsIdle x bare.active_timers)
        (sym o) (again, refl, λ s i. elim i [ ]);
  low = low;
}

apart : ◌≢◌ {A = ℕ} 64 32
apart e = omega (arith, e)

add_timer_in_loop_comm_example :
    (add_timer_in_loop (pos 100) 64 bare >>= add_timer_in_loop (pos 100) 32)
    ≡ (add_timer_in_loop (pos 100) 32 bare >>= add_timer_in_loop (pos 100) 64)
unfolding lookup
add_timer_in_loop_comm_example =
    add_timer_in_loop_comm bare bare-Owns 64 32 once again (pos 100) apart refl refl
      (λ s i. elim i [ ]) (λ s i. elim i [ ])
