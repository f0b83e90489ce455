-- ===== src/Examples/Acceptors.antt =====
-- An acceptor of SrcFile/Acceptor.c that has no descriptor left but its reserve.
use simple_net_base.Prelude.{true, false, [], ◌∷◌, some, arith}
use simple_net_base.Channel.{Channel, new}
use simple_net_base.EventLoop.{EventLoop}
use simple_net_base.Functor.{Functor}
use simple_net_base.Socket.{emfile}
use simple_net_base.Acceptor.{Acceptor, accept_failed, handle_read}
use simple_net_base.Acceptor.Descriptors.{IsAccounted, Renewed, handle_read-IsAccounted}

abbrev listening : Channel
listening = record {
  id = 10;
  fd = 3;
  events = 3;
  revents = 1;
  index = new;
  tied = false;
  event_handling = true;
  added_to_loop = true;
}

abbrev its_loop : EventLoop Functor
its_loop = record {
  thread_id = 1;
  looping = true;
  quit = false;
  event_handling = true;
  calling_pending_functors = false;
  iteration = 1;
  poller = record { channels = []; ctls = []; events_size = 16 };
  active_channels = 10 ∷ [];
  current_active_channel = some 10;
  pending_functors = [];
  wakeups = 0;
}

abbrev pub full : Acceptor
full = record {
  loop = its_loop;
  accept_channel = listening;
  has_callback = true;
  listenning = true;
  idle_fd = some 5;
  opened = 5 ∷ 6 ∷ [];
  closed = [];
  handed = 6 ∷ [];
}

full-IsAccounted : IsAccounted full
full-IsAccounted x = omega arith

handle_read-IsAccounted_example :
    IsAccounted (handle_read (accept_failed emfile) (some 5) (some 7) full)
    × Renewed
        (accept_failed emfile)
        (some 7)
        (handle_read (accept_failed emfile) (some 5) (some 7) full)
handle_read-IsAccounted_example =
    handle_read-IsAccounted (accept_failed emfile) (some 5) (some 7) full full-IsAccounted
