-- ===== src/Examples/Clients.antt =====
-- Clients of SrcFile/TcpClient.c over plain lists as buffers.
use simple_net_base.Prelude.{
  ◌≡◌, refl, true, false, [], ◌∷◌, none, some, arith, lookup, Returns, Returns-ok,
}
use simple_net_base.Buffer.{list_buffer}
use simple_net_base.Channel
use simple_net_base.Channel.{Channel, new, added, deleted}
use simple_net_base.EventLoop
use simple_net_base.Poller
use simple_net_base.EventLoop.{EventLoop}
use simple_net_base.Functor.{Functor}
use simple_net_base.Socket.{einprogress}
use simple_net_base.Connector
use simple_net_base.Connector.{Connector, Attempt, outcome, outcome_of, is_connecting}
use simple_net_base.Connector.Ownership
use simple_net_base.TcpConnection
use simple_net_base.TcpConnection.{Conn, is_disconnected, is_open, Call}
use simple_net_base.TcpConnection.Requests
use simple_net_base.TcpConnection.Requests.{User, Request}
use simple_net_base.TcpConnection.Handlers
use simple_net_base.TcpConnection.Asked.{IsPolite}
use simple_net_base.TcpConnection.Interest
use simple_net_base.TcpClient.{TcpClient, lent_to, but_close, remove_connection}
use simple_net_base.TcpClient.Single.{Inv}
use simple_net_base.TcpClient.Steps.{closes}
use simple_net_base.TcpClient.Outcomes.{FollowsOn, Concluded, step-Concluded}
use simple_net_base.TcpClient.Again.{RetriesNow, remove_connection-RetriesNow}

abbrev the_loop : EventLoop Functor
the_loop = record {
  thread_id = 1;
  looping = true;
  quit = false;
  event_handling = false;
  calling_pending_functors = false;
  iteration = 0;
  poller = record { channels = (7, 100) ∷ []; ctls = []; events_size = 16 };
  active_channels = [];
  current_active_channel = none;
  pending_functors = [];
  wakeups = 0;
}

abbrev conn : Conn list_buffer
conn = record {
  id = 50;
  state = TcpConnection.connected;
  reading = true;
  channel = record {
    id = 100;
    fd = 7;
    events = 3;
    revents = 0;
    index = added;
    tied = true;
    event_handling = false;
    added_to_loop = true;
  };
  loop = the_loop;
  high_water_mark = 10;
  has_write_complete = false;
  has_high_water = false;
  input_buffer = [];
  output_buffer = [];
  sent = [];
  write_shut = false;
  calls = [];
  delayed_closes = [];
}

abbrev done : Connector
done = record {
  id = 900;
  loop = the_loop;
  connect = true;
  state = Connector.connected;
  channel = none;
  retry_delay_ms = 4000;
  opened = 7 ∷ [];
  closed = [];
  handed = 7 ∷ [];
  delays = [];
}

abbrev client : TcpClient list_buffer
client = record {
  loop = the_loop;
  connector = done;
  has_write_complete = false;
  retry = true;
  connect = true;
  next_conn_id = 2;
  connection = some conn;
  released = [];
}

abbrev no_retry : TcpClient list_buffer
no_retry = record client { retry = false }

abbrev again : Attempt
again = record { fd = 8; channel_id = 101; error = some einprogress }

abbrev silent : User list_buffer
silent k c = []

silent-IsPolite : IsPolite list_buffer silent
silent-IsPolite k c = tt

conn-Inv : Interest.Inv list_buffer conn
unfolding lookup is_disconnected
conn-Inv = record {
  reads = true;
  writes = false;
  tracked = refl;
  masked = refl;
  waiting = λ e. cc;
  flushing = λ a b. refl;
  quiet = λ e. (cc, cc);
}

done-Inv : Ownership.Inv done
unfolding is_connecting
done-Inv = record {
  shortest = omega arith;
  longest = omega arith;
  accounted = λ x. omega arith;
  watching = λ h. cc;
  left = λ h. tt;
}

client-Inv : Inv list_buffer client
unfolding is_disconnected
client-Inv = record { connecting = done-Inv; held = (refl, refl, conn-Inv) }

-- The descriptor 8 is free when the connection on 7 has been closed.
free_when_closed :
    Returns
      (λ d. lookup 8 d.loop.poller.channels ≡ none)
      (Handlers.handle_close list_buffer
        (but_close list_buffer silent)
        (lent_to list_buffer client conn))
unfolding Handlers.handle_close lookup is_open TcpConnection.disable_all EventLoop.update_channel
    Poller.update_channel Channel.want_nothing Requests.set_state Requests.callback
free_when_closed = refl

free_after : FollowsOn list_buffer silent again (some conn) client
free_after b d e =
    Returns-ok (λ (d : Conn list_buffer). lookup 8 d.loop.poller.channels ≡ none)
      (Handlers.handle_close list_buffer (but_close list_buffer silent)
        (lent_to list_buffer client conn))
      free_when_closed e

step-Concluded_example : Concluded list_buffer silent (closes again) client
step-Concluded_example =
    step-Concluded list_buffer silent (closes again) client silent-IsPolite free_after client-Inv

goes_on : outcome (some einprogress) ≡ Connector.goes_on
unfolding outcome
goes_on = refl

free_now : lookup 8 the_loop.poller.channels ≡ none
unfolding lookup
free_now = refl

remove_connection-RetriesNow_example :
    Returns (RetriesNow list_buffer conn client) (remove_connection list_buffer again 50 client)
remove_connection-RetriesNow_example =
    remove_connection-RetriesNow list_buffer again conn client refl refl goes_on refl free_now
