-- ===== src/TcpClient/Outcomes.antt =====
-- What each event does to a client of SrcFile/TcpClient.c in whatever state it comes.
use simple_net_base.Prelude.{
  ℕ, ◌≡◌, refl, ap, Bool, true, false, not, ◌&&◌, ◌||◌, Option, none, some, arith, lookup, ◌==◌,
  ==_iff, is_none, ok, fault, assert_failed, ◌>>=◌, Bool-cases, inl, inr, Returns, Returns-bind_to,
  fault_first, if◌then◌else◌,
}
use simple_net_base.Buffer.{BufferOps}
use simple_net_base.EventLoop.{run_in_loop}
use simple_net_base.Connector
use simple_net_base.Connector.{
  Connector, State, Attempt, Outcome, goes_on, tries_again, gives_up, outcome, is_disconnected,
}
use simple_net_base.Connector.Accounting
use simple_net_base.Connector.Accounting.{starts}
use simple_net_base.Connector.Handing.{is_quiet}
use simple_net_base.Connector.Outcomes
use simple_net_base.Connector.Outcomes.{goes, start_stops, chosen_fault, start_refuses, none_of}
use simple_net_base.TcpConnection.{Conn, is_open}
use simple_net_base.TcpConnection.Requests.{User}
use simple_net_base.TcpConnection.Handlers
use simple_net_base.TcpConnection.Asked.{IsPolite, Good}
use simple_net_base.TcpConnection.Handled.{handle_close-Good}
use simple_net_base.TcpConnection.Outcomes.{ends_closed}
use simple_net_base.TcpClient.{
  TcpClient, lent, lent_to, take_connector, take_connection, hold, but_close, connect_to,
  remove_connection, handle_connector_write, handle_connection_close,
}
use simple_net_base.TcpClient.Single.{Inv, IsHeld, but_close-IsPolite}
use simple_net_base.TcpClient.Attempts.{on_connector}
use simple_net_base.TcpClient.Steps.{
  Event, connects, disconnects, stops, starts_attempt, turns, writes, closes, close_held, step,
  CanHappen, CanClose, step-Single,
}

module _ (B : BufferOps) (user : User B) where
  -- The poller does not have the descriptor of an attempt that follows a connection's end.
  abbrev pub FollowsOn : Attempt → Option (Conn B) → TcpClient B → Type 0
  FollowsOn a none c = Unit {0}
  FollowsOn a (some conn) c =
      (c.retry && c.connect) ≡ true
      → (d : Conn B) → Handlers.handle_close B (but_close B user) (lent_to B c conn) ≡ ok d
      → lookup a.fd d.loop.poller.channels ≡ none

  -- A new socket's descriptor is not in the poller, and a reset comes when no attempt is going on.
  abbrev pub IsPlaced : Event B user → TcpClient B → Type 0
  IsPlaced (connects caller a) c =
      (c.loop.thread_id == caller) ≡ true → lookup a.fd c.loop.poller.channels ≡ none
  IsPlaced (starts_attempt a) c = lookup a.fd c.loop.poller.channels ≡ none
  IsPlaced (turns x) c = (is_quiet x ≡ true) × Outcomes.IsPlaced x (lent B c)
  IsPlaced (closes a) c = FollowsOn a c.connection c
  IsPlaced _ c = Unit {0}

  abbrev pub asked : TcpClient B → Connector
  asked c = record (lent B c) { connect = true }

  abbrev pub closes_in_time : Attempt → Option (Conn B) → TcpClient B → Bool
  closes_in_time a none c = true
  closes_in_time a (some conn) c =
      is_open conn.state
      && not
          ((c.retry && c.connect) && (goes (outcome a.error) && not (is_none c.connector.channel)))

  -- The states for which an event is meant.
  abbrev pub is_timely : Event B user → TcpClient B → Bool
  is_timely (connects caller a) c =
      not (c.loop.thread_id == caller) || Outcomes.is_timely (starts a) (asked c)
  is_timely (starts_attempt a) c = Outcomes.is_timely (starts a) (lent B c)
  is_timely (turns x) c = Outcomes.is_timely x (lent B c)
  is_timely (writes error self id) c = Outcomes.is_timely (Accounting.writes error self) (lent B c)
  is_timely (closes a) c = closes_in_time a c.connection c
  is_timely _ c = true

  abbrev pub Concluded : Event B user → TcpClient B → Type 0
  Concluded x c =
      (is_timely x c ≡ true → Returns (Inv B) (step B user x c))
      × (is_timely x c ≡ false → step B user x c ≡ fault assert_failed)

  can_close :
      (a : Attempt) (o : Option (Conn B)) (c : TcpClient B)
      → FollowsOn a o c
      → closes_in_time a o c ≡ true
      → CanClose B user a o c
  can_close a none c p h = tt
  can_close a (some conn) c p h = (
    ground (arith, h),
    λ b. ((λ g. none_of c.connector.channel (ground (arith, h, b, ap goes g))), p b),
  )

  can_happen :
      (x : Event B user) (c : TcpClient B)
      → IsPlaced x c
      → is_timely x c ≡ true
      → CanHappen B user x c
  can_happen (connects caller a) c p h =
      λ here. Outcomes.can_happen (starts a) (asked c) (p here) (ground (arith, h, here))
  can_happen (disconnects caller) c p h = tt
  can_happen (stops caller) c p h = tt
  can_happen (starts_attempt a) c p h = Outcomes.can_happen (starts a) (lent B c) p h
  can_happen (turns x) c p h = (p.0, Outcomes.can_happen x (lent B c) p.1 h)
  can_happen (writes error self id) c p h =
      Outcomes.can_happen (Accounting.writes error self) (lent B c) tt h
  can_happen (closes a) c p h = can_close a c.connection c p h

  connect_refuses :
      (caller : ℕ) (a : Attempt) (c : TcpClient B)
      → is_timely (connects caller a) c ≡ false
      → connect_to B caller a c ≡ fault assert_failed
  unfolding connect_to Connector.start run_in_loop
  connect_refuses caller a c h =
      let here : (c.loop.thread_id == caller) ≡ true = ground (arith, h) in
      let r = start_refuses a (asked c) (ground (arith, h)) in rw (here, r) refl

  on_connector-refuses :
      (x : Accounting.Event) (c : TcpClient B)
      → Inv B c
      → Outcomes.is_timely x (lent B c) ≡ false
      → on_connector B x c ≡ fault assert_failed
  unfolding on_connector
  on_connector-refuses x c v h =
      fault_first assert_failed _ _ (Outcomes.refuses x (lent B c) v.connecting h)

  write_refuses :
      (error self : Bool) (id : ℕ) (c : TcpClient B)
      → Inv B c
      → is_timely (writes error self id) c ≡ false
      → handle_connector_write B user error self id c ≡ fault assert_failed
  unfolding handle_connector_write Accounting.step
  write_refuses error self id c v h =
      fault_first assert_failed _ _
        (Outcomes.refuses (Accounting.writes error self) (lent B c) v.connecting h)

  again_refuses :
      (b : Bool) (a : Attempt) (c : TcpClient B)
      → b ≡ true
      → (goes (outcome a.error) && not (is_none c.connector.channel)) ≡ true
      → (if b then (Connector.restart a (lent B c) >>= λ k. ok (take_connector B c k)) else ok c)
        ≡ fault assert_failed
  unfolding Connector.restart Connector.start_in_loop Connector.try_connect is_disconnected
  again_refuses b a c on h = rw on (
      fault_first assert_failed _ _ (
        start_stops (outcome a.error) a
          (record (lent B c) { state = State.disconnected; retry_delay_ms = 500; connect = true })
          h))

  removal_refuses :
      (a : Attempt) (d : Conn B) (c : TcpClient B)
      → (c.retry && c.connect) ≡ true
      → (goes (outcome a.error) && not (is_none c.connector.channel)) ≡ true
      → remove_connection B a d.id (take_connection B c d) ≡ fault assert_failed
  unfolding remove_connection hold
  removal_refuses a d c on h = rw ((==_iff d.id d.id).1 refl) (again_refuses _ a _ on h)

  close_refuses :
      (a : Attempt) (o : Option (Conn B)) (c : TcpClient B)
      → IsPolite B user
      → IsHeld B o c
      → closes_in_time a o c ≡ false
      → close_held B user a o c ≡ fault assert_failed
  unfolding close_held handle_connection_close
  close_refuses a none c polite held h = cc
  close_refuses a (some conn) c polite held h =
      let user' = but_close B user in
      let conn' = lent_to B c conn in
      elim (Bool-cases (is_open conn.state)) [
        | inl opened ↦
            Returns-bind_to (Good B true) (fault assert_failed)
              (Handlers.handle_close B user' conn') _
              (handle_close-Good B user' (but_close-IsPolite B user polite) conn' opened held.2)
              λ d g. removal_refuses a d c (ground (arith, h, opened)) (ground (arith, h, opened))
        | inr shut ↦ fault_first assert_failed _ _ (ends_closed B user' conn' shut)
      ]

  refuses :
      (x : Event B user) (c : TcpClient B)
      → IsPolite B user
      → Inv B c
      → is_timely x c ≡ false
      → step B user x c ≡ fault assert_failed
  unfolding step
  refuses (connects caller a) c polite v h = connect_refuses caller a c h
  refuses (disconnects caller) c polite v h = cc
  refuses (stops caller) c polite v h = cc
  refuses (starts_attempt a) c polite v h = on_connector-refuses (starts a) c v h
  refuses (turns x) c polite v h = on_connector-refuses x c v h
  refuses (writes error self id) c polite v h = write_refuses error self id c v h
  refuses (closes a) c polite v h = close_refuses a c.connection c polite v.held h

  -- For a user whose callbacks do not ask a disconnected connection to shut down or to start reading, and send no
  -- message of 2^64 bytes, in every state with the invariant, for attempts whose sockets' descriptors are not in
  -- the poller, and resets of the connector's channel that come when no attempt is going on: every event keeps
  -- the invariant, with no failed assertion, but for these, which end in a failed assertion. `connect` in
  -- the loop's thread, and an attempt that was put off, fail when the connector is not disconnected, as
  -- it stays after a connection that has ended with no retry. Each of these, and the retry that follows the
  -- end of a connection, fails when the attempt goes on and the channel of the one before has not been reset yet. A
  -- write event fails when the connector is connected. A write event, an error or a stop fails during an attempt
  -- when the loop does not let the channel be removed. The end of a connection fails when it is neither connected nor disconnecting.
  -- The invariant: the connector accounts for its descriptors, and a connection that is held is not
  -- disconnected and has the invariant of connections, with the connector connected, so that no attempt
  -- is going on beside it.
  pub step-Concluded :
      (x : Event B user) (c : TcpClient B)
      → IsPolite B user
      → IsPlaced x c
      → Inv B c
      → Concluded x c
  step-Concluded x c polite p v =
      ((λ h. step-Single B user x c polite (can_happen x c p h) v), refuses x c polite v)
