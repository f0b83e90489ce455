-- ===== src/TcpConnection/Outcomes.antt =====
-- What each event does to a connection of SrcFile/TcpConnection.c in whatever state it comes.
use simple_net_base.Prelude.{
  ◌<◌, ◌≡◌, refl, Bool, true, false, not, [], length, fault, assert_failed, ◌>>=◌, Result, Returns,
}
use simple_net_base.Buffer.{BufferOps}
use simple_net_base.Socket.{received}
use simple_net_base.TcpConnection.{Conn, size_mod, is_disconnected, is_connecting, is_open}
use simple_net_base.TcpConnection.Requests.{User}
use simple_net_base.TcpConnection.Handlers.{handle_close, connect_destroyed}
use simple_net_base.TcpConnection.Stream.{IsLegal}
use simple_net_base.TcpConnection.Interest.{Inv}
use simple_net_base.TcpConnection.Asked.{IsProper}
use simple_net_base.TcpConnection.Steps.{
  Event, establishes, asks_for, runs_send, runs_start_read, reads, writes, hangs_up, step,
}

module _ (B : BufferOps) where
  open B use {contents}

  -- The socket takes at most what it is offered, and the user asks for what is proper.
  abbrev pub IsAnswered : Event B → Conn B → Type 0
  IsAnswered (asks_for r) c = IsProper B (is_disconnected c.state) r
  IsAnswered (runs_send bytes w) c = IsLegal w (length bytes) × (length bytes < size_mod)
  IsAnswered (writes w) c = IsLegal w (length (contents c.output_buffer))
  IsAnswered _ c = Unit {0}

  -- The states for which an event is meant.
  abbrev pub is_timely : Event B → Conn B → Bool
  is_timely establishes c = is_connecting c.state
  is_timely runs_start_read c = not (is_disconnected c.state)
  is_timely (reads (received [])) c = is_open c.state
  is_timely hangs_up c = is_open c.state
  is_timely _ c = true

  module _ (user : User B) where
    -- The event, and for a start of reading also the end of the connection after it.
    abbrev pub untimely : Event B → Conn B → Result (Conn B)
    untimely runs_start_read c = step B user runs_start_read c >>= connect_destroyed B user
    untimely x c = step B user x c

    abbrev pub Outcome : Event B → Conn B → Type 0
    Outcome x c =
        (is_timely x c ≡ true → Returns (Inv B) (step B user x c))
        × (is_timely x c ≡ false → untimely x c ≡ fault assert_failed)

    pub ends_closed :
        (c : Conn B) → is_open c.state ≡ false → handle_close B user c ≡ fault assert_failed
    unfolding handle_close
    ends_closed c e = rw e refl
