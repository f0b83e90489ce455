-- ===== src/Examples/Connectors.antt =====
-- Connectors of SrcFile/Connector.c.
use simple_net_base.Prelude.{refl, true, false, [], ◌∷◌, none, some, arith, Returns, lookup}
use simple_net_base.EventLoop.{EventLoop}
use simple_net_base.Functor.{Functor}
use simple_net_base.Socket.{einprogress, econnrefused, enetunreach}
use simple_net_base.Connector.{
  Connector, disconnected, Attempt, is_disconnected, is_connecting, outcome,
}
use simple_net_base.Connector.Ownership.{Inv}
use simple_net_base.Connector.Accounting.{starts}
use simple_net_base.Connector.Outcomes.{Ended, step-Ended}
use simple_net_base.Connector.Backoff.{attempts, Delayed, attempts-Delayed}

abbrev idle_loop : EventLoop Functor
idle_loop = record {
  thread_id = 1;
  looping = true;
  quit = false;
  event_handling = false;
  calling_pending_functors = true;
  iteration = 3;
  poller = record { channels = (4, 40) ∷ []; ctls = []; events_size = 16 };
  active_channels = [];
  current_active_channel = none;
  pending_functors = [];
  wakeups = 0;
}

abbrev ready : Connector
ready = record {
  id = 900;
  loop = idle_loop;
  connect = true;
  state = disconnected;
  channel = none;
  retry_delay_ms = 500;
  opened = 11 ∷ [];
  closed = 11 ∷ [];
  handed = [];
  delays = [];
}

abbrev goes : Attempt
goes = record { fd = 12; channel_id = 41; error = some einprogress }

abbrev fails : Attempt
fails = record { fd = 12; channel_id = 41; error = some econnrefused }

abbrev lost : Attempt
lost = record { fd = 13; channel_id = 42; error = some enetunreach }

ready-Inv : Inv ready
unfolding is_connecting
ready-Inv = record {
  shortest = omega arith;
  longest = omega arith;
  accounted = λ x. omega arith;
  watching = λ h. cc;
  left = λ h. tt;
}

step-Ended_example : Ended (starts goes) ready
unfolding lookup
step-Ended_example = step-Ended (starts goes) ready refl ready-Inv

attempts-Delayed_example : Returns (Delayed 2 ready) (attempts (fails ∷ lost ∷ []) ready)
unfolding is_disconnected outcome
attempts-Delayed_example =
    attempts-Delayed (fails ∷ lost ∷ []) ready (refl, refl, omega arith) (refl, (refl, tt))
