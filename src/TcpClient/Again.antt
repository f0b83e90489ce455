-- ===== src/TcpClient/Again.antt =====
-- What follows in SrcFile/TcpClient.c when a connection has ended: another attempt at once, or a connector
-- that cannot be started any more.
use simple_net_base.Prelude.{
  ℕ, ◌≡◌, ◌∙◌, refl, ap, true, false, ◌&&◌, [], ◌∷◌, ◌++◌, Option, none, some, arith, ◌==◌, ==_iff,
  Returns-bind, lookup, fault, assert_failed, ◌>>=◌, Returns,
}
use simple_net_base.Buffer.{BufferOps}
use simple_net_base.Channel
use simple_net_base.Channel.{Channel, want_writing}
use simple_net_base.EventLoop
use simple_net_base.EventLoop.{EventLoop, queue_in_loop, run_in_loop}
use simple_net_base.Functor.{Functor}
use simple_net_base.Poller.Registration.{update_channel-updated, updated}
use simple_net_base.Connector
use simple_net_base.Connector.{
  Connector, State, connecting, Attempt, goes_on, outcome, is_disconnected, restart, start_in_loop,
  try_connect, connect_as, connecting_with,
}
use simple_net_base.Connector.Accounting.{queue_in_loop-poller}
use simple_net_base.TcpConnection.{Conn}
use simple_net_base.TcpClient.{TcpClient, lent, hold, holds, remove_connection, connect_to}

-- An attempt that goes on, of a connector with no channel and a descriptor that the poller does not have.
abbrev pub Begun : Connector → Connector → Type 0
Begun c d =
    (d.state ≡ connecting)
    × (d.retry_delay_ms ≡ 500)
    × (d.connect ≡ true)
    × (d.loop.pending_functors ≡ c.loop.pending_functors)

restart-Begun :
    (a : Attempt) (c : Connector)
    → outcome a.error ≡ goes_on
    → c.channel ≡ none
    → lookup a.fd c.loop.poller.channels ≡ none
    → Returns (Begun c) (restart a c)
unfolding restart start_in_loop try_connect connect_as connecting_with is_disconnected
    EventLoop.update_channel want_writing Channel.init updated
restart-Begun a c going left free =
    let ch : Channel = record (want_writing (Channel.init a.channel_id a.fd)) {
      added_to_loop = true;
    } in
    rw (going, left, update_channel-updated ch c.loop.poller free) (refl, refl, refl, refl)

module _ (B : BufferOps) where
  abbrev pub RetriesNow : Conn B → TcpClient B → TcpClient B → Type 0
  RetriesNow conn c d =
      (d.connection ≡ none)
      × (d.connector.state ≡ connecting)
      × (d.connector.retry_delay_ms ≡ 500)
      × (d.loop.pending_functors
          ≡ c.loop.pending_functors ++ Functor.connect_destroyed conn.id ∷ [])

  kept_pending :
      (f : Functor) (l : EventLoop Functor)
      → (queue_in_loop l.thread_id f l).pending_functors ≡ l.pending_functors ++ f ∷ []
  unfolding queue_in_loop
  kept_pending f l = ground arith

  held_one : (conn : Conn B) (o : Option (Conn B)) → o ≡ some conn → holds B conn.id o ≡ true
  held_one conn o e = rw e ((==_iff conn.id conn.id).1 refl)

  -- A connection of a client that is to retry ends while the connector is done with its last attempt and the
  -- next one goes on, on a descriptor that the poller does not have: the removal meets no failed assertion;
  -- afterwards the client holds no connection, the connector is connecting again and its delay is the
  -- shortest, and the only functor that has been queued destroys the connection.
  pub remove_connection-RetriesNow :
      (a : Attempt) (conn : Conn B) (c : TcpClient B)
      → c.connection ≡ some conn
      → (c.retry && c.connect) ≡ true
      → outcome a.error ≡ goes_on
      → c.connector.channel ≡ none
      → lookup a.fd c.loop.poller.channels ≡ none
      → Returns (RetriesNow conn c) (remove_connection B a conn.id c)
  unfolding remove_connection hold
  remove_connection-RetriesNow a conn c e again going left free =
      let c2 : TcpClient B = record (hold B none c) {
        loop = queue_in_loop c.loop.thread_id (Functor.connect_destroyed conn.id) c.loop;
      } in
      rw (held_one conn c.connection e, again)
        (Returns-bind (Begun (lent B c2)) (RetriesNow conn c) (Connector.restart a (lent B c2)) _
          (restart-Begun a (lent B c2) going left (
            ap (λ p. lookup a.fd p.channels)
              (queue_in_loop-poller c.loop.thread_id (Functor.connect_destroyed conn.id) c.loop)
            ∙ free))
          λ k g. (refl, g.0, g.1, g.3 ∙ kept_pending (Functor.connect_destroyed conn.id) c.loop))

  connect_to-refuses :
      (caller : ℕ) (b : Attempt) (c : TcpClient B)
      → c.connector.state ≡ State.connected
      → c.loop.thread_id ≡ caller
      → connect_to B caller b c ≡ fault assert_failed
  unfolding connect_to Connector.start start_in_loop is_disconnected run_in_loop
  connect_to-refuses caller b c up here =
      let there : (c.loop.thread_id == caller) ≡ true = (==_iff c.loop.thread_id caller).1 here in
      rw (there, ap is_disconnected up) refl

  kept_thread :
      (f : Functor) (l : EventLoop Functor)
      → (queue_in_loop l.thread_id f l).thread_id ≡ l.thread_id
  unfolding queue_in_loop
  kept_thread f l = ground arith

  -- Once the connector of a client has connected, a connection that ends without a retry leaves it so:
  -- `connect` in the loop's thread then stops at the assertion of `startInLoop`, whatever the attempt would
  -- have found.
  pub remove_connection-refuses :
      (a b : Attempt) (conn : Conn B) (c : TcpClient B)
      → c.connection ≡ some conn
      → c.connector.state ≡ State.connected
      → (c.retry && c.connect) ≡ false
      → (remove_connection B a conn.id c >>= connect_to B c.loop.thread_id b) ≡ fault assert_failed
  unfolding remove_connection hold
  remove_connection-refuses a b conn c e up again =
      let c2 : TcpClient B = record (hold B none c) {
        loop = queue_in_loop c.loop.thread_id (Functor.connect_destroyed conn.id) c.loop;
      } in
      rw (held_one conn c.connection e, again)
        (connect_to-refuses c.loop.thread_id b c2 up
          (kept_thread (Functor.connect_destroyed conn.id) c.loop))
