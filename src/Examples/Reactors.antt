-- ===== src/Examples/Reactors.antt =====
-- A loop of SrcFile/EventLoop.c from its constructor to its destructor, with timers.
use simple_net_base.Prelude.{
  ℕ, ◌≡◌, refl, Bool, true, false, [], ◌∷◌, none, some, arith, ◌==◌, fault, dangling, lookup,
  insert, holds, ok, Returns, Barring, bad_alloc,
}
use simple_net_base.Prelude.Int.{pos}
use simple_net_base.Channel
use simple_net_base.Channel.{Channel, added}
use simple_net_base.Poller
use simple_net_base.Poller.{Poller, ctl_add}
use simple_net_base.EventLoop
use simple_net_base.EventLoop.{run_in_loop, queue_in_loop, is_in_loop_thread}
use simple_net_base.TimerQueue.{new_timer, new_at}
use simple_net_base.Reactor.{
  Reactor, Setting, construct, destroy, add_timer, empty_queue, identified,
}
use simple_net_base.Reactor.Ends.{
  IsSound, IsListening, FindsRegistered, Released, destroy-Released, construct-IsSound,
}
use simple_net_base.Reactor.Timers.{Scheduled, HandedOver, add_timer-Scheduled}
use simple_net_base.Examples.Timers.{queue, queue-Owns, Waits, one_address, one_address-IsFresh}

abbrev setting : Setting
setting = record {
  address = 1;
  tid = 100;
  timer_channel_address = 2;
  wakeup_channel_address = 3;
  timerfd = some 5;
  eventfd = some 6;
  events_size = 16;
  num_created = 0;
}

abbrev watching : ℕ → ℕ → Channel
watching id fd = record {
  id = id;
  fd = fd;
  events = 3;
  revents = 0;
  index = added;
  tied = false;
  event_handling = false;
  added_to_loop = true;
}

abbrev built : Reactor
built = record {
  loop = record {
    thread_id = 100;
    looping = false;
    quit = false;
    event_handling = false;
    calling_pending_functors = false;
    iteration = 0;
    poller = record {
      channels = (5, 2) ∷ (6, 3) ∷ [];
      ctls =
          record { op = ctl_add; fd = 6; events = 3; ptr = 3 }
          ∷ record { op = ctl_add; fd = 5; events = 3; ptr = 2 }
          ∷ [];
      events_size = 16;
    };
    active_channels = [];
    current_active_channel = none;
    pending_functors = [];
    wakeups = 0;
  };
  timers = empty_queue 0;
  timer_channel = watching 2 5;
  wakeup_channel = watching 3 6;
}

constructed : construct setting none ≡ ok (built, some 1)
unfolding construct EventLoop.update_channel Poller.update_channel Channel.init lookup
    EventLoop.init insert
constructed = refl

construct-IsSound_example :
    Returns
      (λ (r, here). IsSound (λ p. ⊥) r × (here ≡ some 1) × IsListening setting 6 r)
      (construct setting none)
construct-IsSound_example = construct-IsSound setting 6 refl (omega arith)

-- The loop with a timer in its queue.
abbrev busy : Reactor
busy = record built { timers = queue }

busy-IsSound : IsSound Waits busy
unfolding lookup
busy-IsSound = record {
  wakeup_tracked = refl;
  timer_tracked = refl;
  distinct = omega arith;
  quiet = refl;
  wakeup_idle = refl;
  timer_idle = refl;
  owns = queue-Owns;
}

-- `hasChannel` as a look into the map.
abbrev has_channel : Channel → Poller → Bool
has_channel c p = holds c.fd c.id p.channels

has_channel-FindsRegistered : FindsRegistered has_channel
has_channel-FindsRegistered c p e = ground (arith, e)

destroy-Released_example : Returns (Released busy) (destroy has_channel 100 busy)
destroy-Released_example =
    destroy-Released has_channel has_channel-FindsRegistered 100 busy busy-IsSound

-- The loop has run and deleted every timer before the number is read.
abbrev deletes_all : Reactor → Reactor
deletes_all r = record r { timers = record (r.timers) { heap = [] } }

add_timer-Scheduled_example :
    ((100 == 7) ≡ true
      → Barring bad_alloc
          (Scheduled Waits (pos 150) busy)
          (add_timer one_address deletes_all 7 9 (pos 150) (pos 0) false (pos 120) busy))
    × ((100 == 7) ≡ false
        → HandedOver Waits deletes_all busy
            (add_timer one_address deletes_all 7 9 (pos 150) (pos 0) false (pos 120) busy))
add_timer-Scheduled_example =
    add_timer-Scheduled one_address one_address-IsFresh busy busy-IsSound deletes_all 7 9 (pos 150)
      (pos 0) false (pos 120)

read_too_late :
    add_timer one_address deletes_all 7 9 (pos 150) (pos 0) false (pos 120) busy ≡ fault dangling
unfolding add_timer new_timer new_at run_in_loop queue_in_loop is_in_loop_thread identified lookup
read_too_late = refl
