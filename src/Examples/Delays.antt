-- ===== src/Examples/Delays.antt =====
-- A connection of SrcFile/TcpConnection.c that is asked to close later, and one that is gone by then.
use simple_net_base.Prelude.{◌≡◌, refl, true, [], ◌∷◌, arith, ok, lookup, Returns}
use simple_net_base.Prelude.Assoc
use simple_net_base.Buffer.{list_buffer}
use simple_net_base.Channel
use simple_net_base.EventLoop
use simple_net_base.Functor.{Functor}
use simple_net_base.WeakCallback.{Shared, Store, call, lock}
use simple_net_base.TcpConnection.{Conn, disconnecting, is_open, is_connected, is_disconnecting}
use simple_net_base.TcpConnection.Requests.{
  force_close, force_close_with_delay, set_state, shutdown_in_loop,
}
use simple_net_base.TcpConnection.Handlers
use simple_net_base.TcpConnection.Handlers.{force_close_in_loop}
use simple_net_base.TcpConnection.Steps.{runs_shutdown, errs, step, here, next}
use simple_net_base.TcpConnection.Delayed.{delayed, expire, WillClose, IsClosed, delayed-closes}
use simple_net_base.Examples.Connections.{open_conn, open_Inv, bored, bored-IsPolite}

abbrev asked : Conn list_buffer
asked = record open_conn { state = disconnecting; delayed_closes = 5 ∷ [] }

-- Its write end has been shut down by the time that the timer expires.
abbrev shut : Conn list_buffer
shut = record asked { write_shut = true }

abbrev closing : Conn list_buffer
closing = record shut {
  loop = record open_conn.loop { pending_functors = Functor.force_close_in_loop 50 ∷ [] };
}

abbrev owned : Shared (Conn list_buffer)
owned = record { object = shut; uses = 2 }

abbrev store : Store (Conn list_buffer)
store = (40, record { object = open_conn; uses = 1 }) ∷ (50, owned) ∷ []

delayed-closes_example :
    (asked.delayed_closes ≡ 5 ∷ [])
    × (expire list_buffer bored (delayed list_buffer open_conn) store
        ≡ ok (Assoc.insert 50 (record { object = closing; uses = 2 }) store))
    × WillClose list_buffer bored bored-IsPolite shut closing
    × Returns (IsClosed list_buffer bored) (force_close_in_loop list_buffer bored closing)
unfolding lookup is_open is_connected is_disconnecting force_close force_close_with_delay set_state
    shutdown_in_loop step EventLoop.queue_in_loop Channel.is_writing Handlers.handle_error
delayed-closes_example =
    delayed-closes list_buffer bored bored-IsPolite 5 open_conn asked closing closing store owned
      open_Inv refl refl (next runs_shutdown here tt refl) refl (omega arith) refl
      (next errs here tt refl)

-- A connection that is gone.
nothing_left : expire list_buffer bored (delayed list_buffer open_conn) [] ≡ ok []
unfolding expire delayed call lock lookup
nothing_left = refl
