-- ===== src/Examples/Loops.antt =====
-- Loops of SrcFile/EventLoop.c, their functors being numbers.
use simple_net_base.Prelude.{
  ℕ, zero, suc, none, ◌+◌, ◌<◌, ◌≡◌, ◌≢◌, refl, true, false, List, [], ◌∷◌, ◌++◌, arith, ok,
  if◌then◌else◌, Returns,
}
use simple_net_base.EventLoop.{
  EventLoop, Host, do_pending_functors, wakeup, loop, quit_loop, is_in_loop_thread,
}
use simple_net_base.EventLoop.Quitting.{loop-forgets_quit}
use simple_net_base.Poller.{wait_failed}
use simple_net_base.EventLoop.Wakeup.{
  System, Reach, polling, push, others_push, others_wake, here, next, Reach-noticed,
}
use simple_net_base.EventLoop.Rounds.{Drained, do_pending_functors-spawned}

abbrev quiet_loop : EventLoop ℕ
quiet_loop = record {
  thread_id = 1;
  looping = true;
  quit = false;
  event_handling = false;
  calling_pending_functors = false;
  iteration = 0;
  poller = record { channels = []; ctls = []; events_size = 16 };
  active_channels = [];
  current_active_channel = none;
  pending_functors = [];
  wakeups = 0;
}

abbrev waiting : System ℕ
waiting = record { loop = quiet_loop; phase = polling; in_flight = 0 }

abbrev pushed : System ℕ
pushed = record {
  loop = record quiet_loop { pending_functors = 5 ∷ [] };
  phase = polling;
  in_flight = 1;
}

abbrev woken : System ℕ
woken = record {
  loop = record quiet_loop { pending_functors = 5 ∷ []; wakeups = 1 };
  phase = polling;
  in_flight = 0;
}

others_queue : Reach ℕ waiting woken
unfolding push wakeup
others_queue = next (next here (others_push 5 refl)) (others_wake (omega arith) refl)

some_queued : woken.loop.pending_functors ≢ []
some_queued e = cc

Reach-noticed_example : 0 < 1 + 0
Reach-noticed_example =
    Reach-noticed ℕ {s = waiting} {t = woken} (refl, refl, refl) others_queue refl some_queued

-- A host that is the loop alone, whose functors each queue a smaller one until they reach 0.
abbrev spawn : ℕ → List ℕ
spawn zero = []
spawn (suc n) = n ∷ []

abbrev alone : Host ℕ (EventLoop ℕ)
alone = record {
  get = λ l. l;
  put = λ l w. l;
  store = λ w. [];
  put_store = λ s w. w;
  handle_event = λ c w. ok w;
  call = λ f w. ok (record w { pending_functors = w.pending_functors ++ spawn f });
}

abbrev busy : EventLoop ℕ
busy = record quiet_loop { pending_functors = 2 ∷ 0 ∷ 7 ∷ [] }

do_pending_functors-spawned_example :
    Returns (Drained alone spawn (λ f w. refl) busy) (do_pending_functors alone busy)
do_pending_functors-spawned_example =
    do_pending_functors-spawned alone spawn (λ f w. refl)
      (record { get-put = λ l w. refl; put-put = λ l m w. refl }) busy

-- It has not begun.
abbrev idle : EventLoop ℕ
idle = record busy { looping = false }

loop-forgets_quit_example :
    loop alone (wait_failed ∷ []) (quit_loop 7 idle)
    ≡ loop alone (wait_failed ∷ []) (if is_in_loop_thread 7 idle then idle else wakeup idle)
loop-forgets_quit_example =
    loop-forgets_quit alone (record { get-put = λ l w. refl; put-put = λ l m w. refl }) 7
      (wait_failed ∷ []) idle
