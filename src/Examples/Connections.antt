-- ===== src/Examples/Connections.antt =====
-- Connections of SrcFile/TcpConnection.c over plain lists as buffers.
use simple_net_base.Prelude.{
  ◌≡◌, ◌≢◌, ◌↔◌, refl, true, false, List, [], ◌∷◌, none, arith, ok, Returns, fault, assert_failed,
  lookup,
}
use simple_net_base.Buffer.{list_buffer}
use simple_net_base.Channel.{Channel, new, added, deleted, is_writing, want_writing}
use simple_net_base.EventLoop
use simple_net_base.Poller
use simple_net_base.EventLoop.{EventLoop}
use simple_net_base.Functor.{Functor}
use simple_net_base.Poller.{ctl_mod}
use simple_net_base.Socket.{wrote}
use simple_net_base.TcpConnection.{
  Conn, State, is_disconnected, connected, disconnected, connecting, disconnecting, send_in_loop,
}
use simple_net_base.TcpConnection.Requests.{Request, User, shuts_down, shutdown}
use simple_net_base.TcpConnection.Handlers.{handle_write, connect_destroyed, destroy}
use simple_net_base.TcpConnection.Stream.{stream, sent_stream, send_in_loop-stream}
use simple_net_base.TcpConnection.Asked.{AllProper, IsPolite}
use simple_net_base.TcpConnection.Drain.{AfterWrite, handle_write-AfterWrite}
use simple_net_base.TcpConnection.Interest.{Inv}
use simple_net_base.TcpConnection.Steps.{runs_send, reads, step, Reach, here, next, Reach-writes}
use simple_net_base.TcpConnection.Lifecycle.{shutdown-destroy, connect_destroyed-frees}

abbrev the_loop : EventLoop Functor
the_loop = record {
  thread_id = 1;
  looping = true;
  quit = false;
  event_handling = false;
  calling_pending_functors = false;
  iteration = 0;
  poller = record { channels = (7, 100) ∷ []; ctls = []; events_size = 16 };
  active_channels = [];
  current_active_channel = none;
  pending_functors = [];
  wakeups = 0;
}

abbrev reading_channel : Channel
reading_channel = record {
  id = 100;
  fd = 7;
  events = 3;
  revents = 0;
  index = added;
  tied = true;
  event_handling = false;
  added_to_loop = true;
}

abbrev pub open_conn : Conn list_buffer
open_conn = record {
  id = 50;
  state = connected;
  reading = true;
  channel = reading_channel;
  loop = the_loop;
  high_water_mark = 10;
  has_write_complete = true;
  has_high_water = true;
  input_buffer = [];
  output_buffer = [];
  sent = 9 ∷ [];
  write_shut = false;
  calls = [];
  delayed_closes = [];
}

abbrev closing_conn : Conn list_buffer
closing_conn = record open_conn { state = disconnecting }

-- It has four bytes to write.
abbrev busy_conn : Conn list_buffer
busy_conn = record open_conn {
  state = disconnecting;
  channel = record reading_channel { events = 7 };
  output_buffer = 1 ∷ 2 ∷ 3 ∷ 4 ∷ [];
}

abbrev gone_conn : Conn list_buffer
gone_conn = record open_conn {
  state = disconnected;
  channel = record reading_channel { events = 0; index = deleted };
}

-- A user who shuts down each open connection that calls.
abbrev pub bored_in : State → List (Request list_buffer)
bored_in disconnected = []
bored_in _ = shuts_down ∷ []

abbrev pub bored : User list_buffer
bored k c = bored_in c.state

pub open_Inv : Inv list_buffer open_conn
unfolding lookup is_disconnected
open_Inv = record {
  reads = true;
  writes = false;
  tracked = refl;
  masked = refl;
  waiting = λ h. cc;
  flushing = λ h e. refl;
  quiet = λ h. (cc, cc);
}

busy_Inv : Inv list_buffer busy_conn
unfolding lookup is_disconnected
busy_Inv = record {
  reads = true;
  writes = true;
  tracked = refl;
  masked = refl;
  waiting = λ h e. cc;
  flushing = λ h e. cc;
  quiet = λ h. (cc, cc);
}

gone_Inv : Inv list_buffer gone_conn
unfolding lookup is_disconnected
gone_Inv = record {
  reads = false;
  writes = false;
  tracked = refl;
  masked = refl;
  waiting = λ h. cc;
  flushing = λ h e. refl;
  quiet = λ h. (refl, refl);
}

bored_in-AllProper : (s : State) → AllProper list_buffer (is_disconnected s) (bored_in s)
unfolding is_disconnected
bored_in-AllProper disconnected = tt
bored_in-AllProper connecting = (refl, tt)
bored_in-AllProper connected = (refl, tt)
bored_in-AllProper disconnecting = (refl, tt)

pub bored-IsPolite : IsPolite list_buffer bored
bored-IsPolite k c = bored_in-AllProper c.state

send_in_loop-stream_example :
    Returns
      (λ d. stream list_buffer d ≡ sent_stream list_buffer (1 ∷ 2 ∷ 3 ∷ []) (wrote 2) open_conn)
      (send_in_loop list_buffer (1 ∷ 2 ∷ 3 ∷ []) (wrote 2) open_conn)
unfolding lookup is_disconnected
send_in_loop-stream_example =
    send_in_loop-stream list_buffer (1 ∷ 2 ∷ 3 ∷ []) (wrote 2) open_conn refl refl (omega arith)
      (omega arith)

handle_write-AfterWrite_example :
    Returns
      (AfterWrite list_buffer bored (wrote 3) busy_conn)
      (handle_write list_buffer bored (wrote 3) busy_conn)
unfolding lookup
handle_write-AfterWrite_example =
    handle_write-AfterWrite list_buffer bored (wrote 3) busy_conn true true refl refl (omega arith)

shutdown-destroy_example :
    Returns
      (λ d. (d.state ≡ disconnecting) × (destroy list_buffer bored d ≡ fault assert_failed))
      (shutdown list_buffer 1 gone_conn)
shutdown-destroy_example = shutdown-destroy list_buffer bored 1 gone_conn

connect_destroyed-frees_example :
    Returns
      (λ d.
        ((lookup 7 d.loop.poller.channels ≡ none)
          × (d.channel.index ≡ new)
          × (d.state ≡ disconnected))
        × (destroy list_buffer bored d ≡ ok tt))
      (connect_destroyed list_buffer bored gone_conn)
unfolding is_disconnected
connect_destroyed-frees_example =
    connect_destroyed-frees list_buffer bored gone_conn gone_Inv refl (λ e. cc) refl

-- After a message of which the socket takes a part.
abbrev half_sent : Conn list_buffer
half_sent = record open_conn {
  channel = record reading_channel { events = 7 };
  loop = record the_loop {
    poller = record {
      channels = (7, 100) ∷ [];
      ctls = record { op = ctl_mod; fd = 7; events = 7; ptr = 100 } ∷ [];
      events_size = 16;
    };
  };
  sent = 9 ∷ 1 ∷ [];
  output_buffer = 2 ∷ 3 ∷ [];
}

half_reached : Reach list_buffer bored open_conn half_sent
unfolding step send_in_loop lookup is_disconnected is_writing EventLoop.update_channel
    Poller.update_channel want_writing
half_reached = next (runs_send (1 ∷ 2 ∷ 3 ∷ []) (wrote 1)) here (omega arith, omega arith) refl

Reach-writes_example : (is_writing half_sent.channel ≡ true) ↔ (half_sent.output_buffer ≢ [])
unfolding is_disconnected
Reach-writes_example =
    Reach-writes list_buffer bored bored-IsPolite {c = open_conn} {d = half_sent} open_Inv
      half_reached refl

-- It has two bytes to send back.
abbrev asking_conn : Conn list_buffer
asking_conn = record open_conn { input_buffer = 7 ∷ 8 ∷ [] }
