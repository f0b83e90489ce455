-- ===== src/TcpConnection/Lifecycle.antt =====
-- The end of a connection's life in SrcFile/TcpConnection.c: what a shutdown does to the state, and
-- when `connectDestroyed` gives the descriptor back.
use simple_net_base.Prelude.{
  ℕ, ◌≡◌, ◌≢◌, ◌∙◌, refl, ap, true, false, not, ◌||◌, none, arith, ok, fault, assert_failed, ◌>>=◌,
  Returns, Returns-mono, ◌==◌, Bool-cases, inl, inr, lookup, lookup-erase,
}
use simple_net_base.Buffer.{BufferOps}
use simple_net_base.Channel.{Channel, new, is_none_event, is_reading, is_writing, want_reading}
use simple_net_base.Channel.Masks.{Wants, Wants-tests, want_reading-Wants}
use simple_net_base.EventLoop
use simple_net_base.EventLoop.{run_in_loop}
use simple_net_base.Poller.Registration.{removed, remove_channel-removed}
use simple_net_base.TcpConnection.{
  Conn, State, disconnected, disconnecting, is_disconnected, is_connected, enable_reading,
}
use simple_net_base.TcpConnection.Requests.{User, shutdown, start_read_in_loop}
use simple_net_base.TcpConnection.Handlers.{connect_destroyed, remove_channel, destroy}
use simple_net_base.TcpConnection.Events.{Tracks, applied, with_events-applied, want_reading-Keeps}
use simple_net_base.TcpConnection.Interest.{Inv}

module _ (B : BufferOps) (user : User B) where
  -- Whatever the state of the connection, `shutdown` returns with the state kDisconnecting, also after
  -- the connection was disconnected: destroying it then stops at the destructor's assertion.
  pub shutdown-destroy :
      (caller : ℕ) (c : Conn B)
      → Returns
          (λ d. (d.state ≡ disconnecting) × (destroy B user d ≡ fault assert_failed))
          (shutdown B caller c)
  unfolding shutdown destroy run_in_loop is_disconnected
  shutdown-destroy caller c = elim (Bool-cases (c.loop.thread_id == caller)) [
    | inl here ↦ elim (Bool-cases (is_writing c.channel)) [
      | inl busy ↦ rw (here, busy) (refl, refl)
      | inr idle ↦ rw (here, idle) (refl, refl)
    ]
    | inr there ↦ rw there (refl, refl)
  ]

  remove_refuses :
      (c : Conn B) → is_none_event c.channel ≡ false → remove_channel B user c ≡ fault assert_failed
  unfolding remove_channel EventLoop.remove_channel
  remove_refuses c h = rw h

  not_connected : (s : State) → is_disconnected s ≡ true → is_connected s ≡ false
  unfolding is_disconnected is_connected
  not_connected disconnected h = refl
  not_connected State.connecting h = cc
  not_connected State.connected h = cc
  not_connected disconnecting h = cc

  abbrev Freed : Conn B → Conn B → Type 0
  Freed c d =
      (lookup c.channel.fd d.loop.poller.channels ≡ none)
      × (d.channel.index ≡ new)
      × (d.state ≡ c.state)

  remove_channel-Freed :
      (c : Conn B)
      → Tracks B c
      → is_none_event c.channel ≡ true
      → c.channel.index ≢ new
      → c.loop.event_handling ≡ false
      → Returns (Freed c) (remove_channel B user c)
  unfolding remove_channel EventLoop.remove_channel removed is_none_event
  remove_channel-Freed c t idle known quiet =
      let ch : Channel = record (c.channel) { added_to_loop = false } in
      rw (idle, quiet, remove_channel-removed ch c.loop.poller t idle known)
        (ground (arith, lookup-erase c.channel.fd c.channel.fd c.loop.poller.channels), refl, refl)

  idle_of_quiet :
      (c : Conn B) → Inv B c → is_disconnected c.state ≡ true → is_none_event c.channel ≡ true
  idle_of_quiet c v gone =
      let (r, w) = v.quiet gone in
      (Wants-tests c.channel v.reads v.writes v.masked).2 ∙ ground (arith, r, w)

  -- A disconnected connection with the invariant, so that its channel wants no events, whose channel the poller
  -- knows, destroyed outside the handling of events: `connectDestroyed` meets no failed assertion, frees the descriptor, leaves the channel new and the state
  -- as it was, and the destructor's assertion then holds.
  pub connect_destroyed-frees :
      (c : Conn B)
      → Inv B c
      → is_disconnected c.state ≡ true
      → c.channel.index ≢ new
      → c.loop.event_handling ≡ false
      → Returns (λ d. Freed c d × (destroy B user d ≡ ok tt)) (connect_destroyed B user c)
  unfolding connect_destroyed destroy
  connect_destroyed-frees c v gone known quiet = rw (not_connected c.state gone) (
      Returns-mono (Freed c) (λ d. Freed c d × (destroy B user d ≡ ok tt)) (remove_channel B user c)
        (remove_channel-Freed c v.tracked (idle_of_quiet c v gone) known quiet)
        (λ d f. (f, rw (ap is_disconnected f.2 ∙ gone))))

  -- Once reading is started again on a disconnected connection with the invariant, it cannot be
  -- destroyed: the removal of its channel stops at an assertion.
  pub start_read_in_loop-refuses :
      (c : Conn B)
      → Inv B c
      → is_disconnected c.state ≡ true
      → (start_read_in_loop B c >>= connect_destroyed B user) ≡ fault assert_failed
  unfolding start_read_in_loop enable_reading connect_destroyed applied
  start_read_in_loop-refuses c v gone =
      let d : Conn B = record (applied B want_reading c) { reading = true } in
      let still : is_reading c.channel ≡ false =
        (Wants-tests c.channel v.reads v.writes v.masked).0 ∙ (v.quiet gone).0 in
      let on : Wants d.channel true v.writes =
        want_reading-Wants c.channel v.reads v.writes v.masked in
      let needed : (not c.reading || not (is_reading c.channel)) ≡ true = ground (arith, still) in
      rw
        (
          needed,
          with_events-applied B want_reading (want_reading-Keeps B) c v.tracked,
          not_connected c.state gone,
        )
        (remove_refuses d ((Wants-tests d.channel true v.writes on).2))
