-- ===== src/TcpClient/Steps.antt =====
-- Every operation of SrcFile/TcpClient.c, and what happens to its connector and its connection.
use simple_net_base.Prelude.{
  ℕ, ◌≡◌, ◌≢◌, ◌∙◌, refl, sym, ap, subst, Bool, true, false, ◌&&◌, Option, none, some, ◌==◌, lookup,
  inl, inr, Result, ok, Returns, Returns-bind, Returns-bind_eq, Returns-mono,
}
use simple_net_base.Buffer.{BufferOps}
use simple_net_base.EventLoop.{queue_in_loop}
use simple_net_base.EventLoop.Calls.{run_in_loop-Returns}
use simple_net_base.Functor.{Functor}
use simple_net_base.Connector
use simple_net_base.Connector.{Connector, State, Attempt, outcome, goes_on, is_disconnected}
use simple_net_base.Connector.Ownership
use simple_net_base.Connector.Accounting
use simple_net_base.Connector.Accounting.{Removable, starts, queue_in_loop-poller}
use simple_net_base.Connector.Handing.{other_loop-Inv, asked-Inv, idle_of_connected, is_quiet}
use simple_net_base.TcpConnection.{Conn, is_open}
use simple_net_base.TcpConnection.Requests.{User, shutdown}
use simple_net_base.TcpConnection.Handlers
use simple_net_base.TcpConnection.Asked.{IsPolite, Good, shutdown-Good}
use simple_net_base.TcpConnection.Handled.{handle_close-Good}
use simple_net_base.TcpConnection.Interest
use simple_net_base.TcpClient.{
  TcpClient, lent, lent_to, take_connector, handle_connector_write, handle_connection_close,
  connect_to, shut_held, disconnect, stop, but_close,
}
use simple_net_base.TcpClient.Single.{Inv, IsHeld, but_close-IsPolite}
use simple_net_base.TcpClient.Removal.{removed-Inv}
use simple_net_base.TcpClient.Attempts.{on_connector, on_connector-Inv, handle_connector_write-Inv}

attempted :
    (a : Attempt) (k : Connector)
    → Accounting.CanHappen (starts a) k
    → Ownership.Inv k
    → Returns Ownership.Inv (Connector.start_in_loop a k)
unfolding Accounting.step
attempted a k h v = Accounting.step-Accounted (starts a) k h v

module _ (B : BufferOps) (user : User B) where
  -- What the user asks for, an attempt that was put off, other events of the connector, its write event, and
  -- the end of the connection; with what a new attempt finds, and the address of a new connection.
  pub data Event : Type 0 where
    connects : ℕ → Attempt → Event
    disconnects stops : ℕ → Event
    starts_attempt : Attempt → Event
    turns : Accounting.Event → Event
    writes : Bool → Bool → ℕ → Event
    closes : Attempt → Event

  unfoldable pub close_held : Attempt → Option (Conn B) → TcpClient B → Result (TcpClient B)
  unfolding handle_connection_close
  close_held a none c = ok c
  close_held a (some conn) c = handle_connection_close B user a conn c

  unfoldable pub step : Event → TcpClient B → Result (TcpClient B)
  unfolding close_held
  step (connects caller a) c = connect_to B caller a c
  step (disconnects caller) c = disconnect B caller c
  step (stops caller) c = ok (stop B caller c)
  step (starts_attempt a) c = on_connector B (starts a) c
  step (turns x) c = on_connector B x c
  step (writes error self id) c = handle_connector_write B user error self id c
  step (closes a) c = close_held a c.connection c

  -- An attempt that follows at once finds the connector's channel reset and a descriptor that the poller
  -- does not have.
  abbrev pub CanRetry : Attempt → Conn B → TcpClient B → Type 0
  CanRetry a conn c =
      (outcome a.error ≡ goes_on → c.connector.channel ≡ none)
      × ((d : Conn B)
          → Handlers.handle_close B (but_close B user) (lent_to B c conn) ≡ ok d
          → lookup a.fd d.loop.poller.channels ≡ none)

  abbrev pub CanClose : Attempt → Option (Conn B) → TcpClient B → Type 0
  CanClose a none c = Unit {0}
  CanClose a (some conn) c =
      (is_open conn.state ≡ true) × ((c.retry && c.connect) ≡ true → CanRetry a conn c)

  -- In the loop's thread `connect` starts an attempt, so the connector is free for one; a write event
  -- comes before the connection is up; a connection that ends is open.
  abbrev pub CanHappen : Event → TcpClient B → Type 0
  CanHappen (connects caller a) c =
      (c.loop.thread_id == caller) ≡ true
      → Accounting.CanHappen (starts a) (record (lent B c) { connect = true })
  CanHappen (disconnects caller) c = Unit {0}
  CanHappen (stops caller) c = Unit {0}
  CanHappen (starts_attempt a) c = Accounting.CanHappen (starts a) (lent B c)
  CanHappen (turns x) c = (is_quiet x ≡ true) × Accounting.CanHappen x (lent B c)
  CanHappen (writes error self id) c = Removable (lent B c) × (c.connector.state ≢ State.connected)
  CanHappen (closes a) c = CanClose a c.connection c

  asked_held :
      (o : Option (Conn B)) (c d : TcpClient B)
      → d.connector.state ≡ c.connector.state
      → d.loop.poller ≡ c.loop.poller
      → IsHeld B o c
      → IsHeld B o d
  asked_held none c d es ep h = tt
  asked_held (some conn) c d es ep h =
      (es ∙ h.0, h.1, Interest.Inv-same B (lent_to B c conn) _ refl ep refl refl h.2)

  -- With a functor queued and the flags set.
  asked :
      (b b' : Bool) (caller : ℕ) (f : Functor) (c : TcpClient B)
      → Inv B c
      → Inv B (record c {
        connect = b;
        connector = record (c.connector) { connect = b'; loop = queue_in_loop caller f c.loop };
        loop = queue_in_loop caller f c.loop;
      })
  asked b b' caller f c v = record {
    connecting = asked-Inv (lent B c) v.connecting b' _ (queue_in_loop-poller caller f c.loop);
    held = asked_held c.connection c _ refl (queue_in_loop-poller caller f c.loop) v.held;
  }

  shut_held-Inv :
      (caller : ℕ) (o : Option (Conn B)) (c : TcpClient B)
      → c.connection ≡ o
      → Ownership.Inv (lent B c)
      → IsHeld B o c
      → Returns (Inv B) (shut_held B caller o (record c { connect = false }))
  unfolding shut_held
  shut_held-Inv caller none c e v h = record {
    connecting = v;
    held = subst (λ o. IsHeld B o (record c { connect = false })) (sym e) h;
  }
  shut_held-Inv caller (some conn) c e v h =
      Returns-bind (Good B false) (Inv B) (shutdown B caller (lent_to B c conn)) _
        (shutdown-Good B caller (lent_to B c conn) (h.2, h.1))
        λ d g. record {
          connecting = other_loop-Inv (lent B c) v d.loop (idle_of_connected c.connector.state h.0);
          held = (h.0, g.1, g.0);
        }

  -- A connector that is free for an attempt has no connection beside it.
  none_held :
      (o : Option (Conn B)) (c : TcpClient B)
      → is_disconnected c.connector.state ≡ true
      → IsHeld B o c
      → o ≡ none
  unfolding is_disconnected
  none_held none c idle h = refl
  none_held (some conn) c idle h = absurd (ne (ap is_disconnected (sym h.0) ∙ idle))
    where
      ne : false ≢ true
      ne e = cc

  connect_to-Inv :
      (caller : ℕ) (a : Attempt) (c : TcpClient B)
      → CanHappen (connects caller a) c
      → Inv B c
      → Returns (Inv B) (connect_to B caller a c)
  unfolding connect_to Connector.start
  connect_to-Inv caller a c h v =
      let k' : Connector = record (lent B c) { connect = true } in
      let c' : TcpClient B = record c { connect = true; connector = k' } in
      Returns-bind (λ k. Inv B (take_connector B c' k)) (Inv B)
        (Connector.start caller a (lent B c')) (λ k. ok (take_connector B c' k))
        (run_in_loop-Returns (λ k. Inv B (take_connector B c' k)) caller
          (Functor.start_in_loop c.connector.id) (Connector.start_in_loop a k')
          (λ l. record k' { loop = l }) c.loop
          (λ here.
            let free = none_held c.connection c (h here).0 v.held in
            Returns-mono Ownership.Inv (λ k. Inv B (take_connector B c' k))
              (Connector.start_in_loop a k')
              (attempted a k' (h here) (asked-Inv (lent B c) v.connecting true c.loop refl))
              λ k w. record {
                connecting = w;
                held = subst (λ o. IsHeld B o (take_connector B c' k)) (sym free) tt;
              })
          (λ there. asked true true caller (Functor.start_in_loop c.connector.id) c v))
        (λ k w. w)

  close_held-Inv :
      (a : Attempt) (o : Option (Conn B)) (c : TcpClient B)
      → IsPolite B user
      → CanClose a o c
      → IsHeld B o c
      → Inv B c
      → Returns (Inv B) (close_held a o c)
  unfolding close_held handle_connection_close
  close_held-Inv a none c polite h held v = v
  close_held-Inv a (some conn) c polite h held v =
      let user' = but_close B user in
      let conn' = lent_to B c conn in
      Returns-bind_eq (Good B true) (Inv B) (Handlers.handle_close B user' conn') _
        (handle_close-Good B user' (but_close-IsPolite B user polite) conn' h.0 held.2)
        λ d e g.
          removed-Inv B a d (record c { loop = d.loop }) held.0
            (other_loop-Inv (lent B c) v.connecting d.loop
              (idle_of_connected c.connector.state held.0))
            (λ b. ((h.1 b).0, (h.1 b).1 d e))

  -- For a polite user, every event that can happen to a client with the invariant meets no failed
  -- assertion, and keeps the invariant: the connector accounts for its descriptors, and whenever a
  -- connection is held it is not disconnected and has the invariant of connections, and the connector is
  -- connected, so that no attempt is going on beside it.
  pub step-Single :
      (x : Event) (c : TcpClient B)
      → IsPolite B user
      → CanHappen x c
      → Inv B c
      → Returns (Inv B) (step x c)
  unfolding step disconnect stop Connector.stop
  step-Single (connects caller a) c polite h v = connect_to-Inv caller a c h v
  step-Single (disconnects caller) c polite h v =
      shut_held-Inv caller c.connection c refl v.connecting v.held
  step-Single (stops caller) c polite h v =
      asked false false caller (Functor.stop_in_loop c.connector.id) c v
  step-Single (starts_attempt a) c polite h v =
      on_connector-Inv B (starts a) c (inr (none_held c.connection c h.0 v.held)) h v
  step-Single (turns x) c polite h v = on_connector-Inv B x c (inl h.0) h.1 v
  step-Single (writes error self id) c polite h v =
      handle_connector_write-Inv B user error self id c polite h.0 h.1 v
  step-Single (closes a) c polite h v = close_held-Inv a c.connection c polite h v.held v
