-- ===== src/TcpClient/Single.antt =====
-- A client of SrcFile/TcpClient.c has one connection or one attempt, not both: the invariant of the
-- client, and what establishes it for a new connection.
use simple_net_base.Prelude.{
  ℕ, ◌+◌, ◌≡◌, refl, true, false, Option, none, some, lookup, Returns, Returns-bind,
}
use simple_net_base.Buffer.{BufferOps}
use simple_net_base.Channel
use simple_net_base.Connector.{State}
use simple_net_base.Connector.Ownership
use simple_net_base.Connector.Handing.{other_loop-Inv, idle_of_connected}
use simple_net_base.TcpConnection
use simple_net_base.TcpConnection.{
  Conn, is_disconnected, Call, connection_call, message_call, close_call,
}
use simple_net_base.TcpConnection.Requests.{User}
use simple_net_base.TcpConnection.Handlers
use simple_net_base.TcpConnection.Asked.{IsPolite, Good}
use simple_net_base.TcpConnection.Handled.{established-Good}
use simple_net_base.TcpConnection.Interest
use simple_net_base.TcpClient.{TcpClient, lent, lent_to, made, hold, but_close, new_connection}

module _ (B : BufferOps) where
  -- A held connection is live and well-formed, and the connector has done its work.
  abbrev pub IsHeld : Option (Conn B) → TcpClient B → Type 0
  IsHeld none c = Unit {0}
  IsHeld (some conn) c =
      (c.connector.state ≡ State.connected)
      × (is_disconnected conn.state ≡ false)
      × Interest.Inv B (lent_to B c conn)

  pub record Inv (c : TcpClient B) : Type 0 where
    pub connecting : Ownership.Inv (lent B c)
    pub held : IsHeld c.connection c

  pub but_close-IsPolite : (user : User B) → IsPolite B user → IsPolite B (but_close B user)
  but_close-IsPolite user p connection_call c = p connection_call c
  but_close-IsPolite user p message_call c = p message_call c
  but_close-IsPolite user p close_call c = tt

  made-Inv :
      (id fd : ℕ) (c : TcpClient B)
      → lookup fd c.loop.poller.channels ≡ none
      → Interest.Inv B (made B id fd c)
  unfolding made TcpConnection.init Channel.init is_disconnected
  made-Inv id fd c free = record {
    reads = false;
    writes = false;
    tracked = free;
    masked = refl;
    waiting = λ e. cc;
    flushing = λ a b. B.contents-empty;
    quiet = λ e. (refl, refl);
  }

  made-connecting :
      (id fd : ℕ) (c : TcpClient B) → TcpConnection.is_connecting (made B id fd c).state ≡ true
  unfolding made TcpConnection.init TcpConnection.is_connecting
  made-connecting id fd c = refl

  -- A connected connector's client that holds nothing takes a new descriptor that the poller does not have.
  pub new_connection-Inv :
      (user : User B) (id fd : ℕ) (c : TcpClient B)
      → IsPolite B user
      → c.connector.state ≡ State.connected
      → Ownership.Inv (lent B c)
      → lookup fd c.loop.poller.channels ≡ none
      → Returns Inv (new_connection B user id fd c)
  unfolding new_connection hold
  new_connection-Inv user id fd c polite up v free =
      let c1 : TcpClient B = record c { next_conn_id = c.next_conn_id + 1 } in
      Returns-bind (Good B false) Inv
        (Handlers.connect_established B (but_close B user) (made B id fd c1)) _
        (established-Good B (but_close B user) (but_close-IsPolite user polite) (made B id fd c1)
          (made-connecting id fd c1) (made-Inv id fd c1 free))
        (λ d g. record {
          connecting = other_loop-Inv (lent B c) v d.loop (idle_of_connected c.connector.state up);
          held = (up, g.1, g.0);
        })
