-- ===== src/TcpConnection/Events.antt =====
-- A change of a connection's interest, in one piece: with the channel tracked by the poller no
-- assertion fails, and all but the channel and the poller stays as it is.
use simple_net_base.Prelude.{◌≡◌, refl, Bool, true, arith, if◌then◌else◌, ok}
use simple_net_base.Buffer.{BufferOps}
use simple_net_base.Channel.{
  Channel, is_writing, want_reading, unwant_reading, want_writing, unwant_writing, want_nothing,
}
use simple_net_base.Channel.Masks.{Wants}
use simple_net_base.EventLoop.{update_channel, queue_in_loop}
use simple_net_base.Functor.{Functor}
use simple_net_base.Poller.{Poller}
use simple_net_base.Poller.Registration.{
  IsTracked, updated, update_channel-updated, updated-IsTracked,
}
use simple_net_base.TcpConnection.{Conn, with_events, queue_if, ensure_writing}

module _ (B : BufferOps) where
  -- The poller knows the connection's channel as the channel's index says.
  abbrev pub Tracks : Conn B → Type 0
  Tracks c = IsTracked c.channel c.loop.poller

  abbrev in_loop : Channel → Channel
  in_loop ch = record ch { added_to_loop = true }

  abbrev after : (Channel → Channel) → Conn B → Channel × Poller
  after f c = updated (f c.channel).index (in_loop (f c.channel)) c.loop.poller

  unfoldable pub applied : (Channel → Channel) → Conn B → Conn B
  unfolding updated
  applied f c = record c {
    channel = (after f c).0;
    loop = record (c.loop) { poller = (after f c).1 };
  }

  -- A change that leaves alone what the poller goes by.
  abbrev pub Keeps : (Channel → Channel) → Type 0
  Keeps f = (ch : Channel) → ((f ch).id ≡ ch.id) × ((f ch).fd ≡ ch.fd) × ((f ch).index ≡ ch.index)

  pub want_reading-Keeps : Keeps want_reading
  unfolding want_reading
  want_reading-Keeps ch = (refl, refl, refl)

  pub unwant_reading-Keeps : Keeps unwant_reading
  unfolding unwant_reading
  unwant_reading-Keeps ch = (refl, refl, refl)

  pub want_writing-Keeps : Keeps want_writing
  unfolding want_writing
  want_writing-Keeps ch = (refl, refl, refl)

  pub unwant_writing-Keeps : Keeps unwant_writing
  unfolding unwant_writing
  unwant_writing-Keeps ch = (refl, refl, refl)

  pub want_nothing-Keeps : Keeps want_nothing
  unfolding want_nothing
  want_nothing-Keeps ch = (refl, refl, refl)

  module _ (f : Channel → Channel) (keeps : Keeps f) (c : Conn B) (h : Tracks c) where
    IsTracked-change : IsTracked (in_loop (f c.channel)) c.loop.poller
    IsTracked-change = let (i, d, x) = keeps c.channel in rw (i, d, x) h

    pub with_events-applied : with_events B f c ≡ ok (applied f c)
    unfolding with_events update_channel applied
    with_events-applied =
        rw (update_channel-updated (in_loop (f c.channel)) c.loop.poller IsTracked-change)

    pub applied-Tracks : Tracks (applied f c)
    unfolding applied
    applied-Tracks = updated-IsTracked _ (in_loop (f c.channel)) c.loop.poller IsTracked-change

  -- The channel then has the events of the change.
  pub applied-Wants :
      (f : Channel → Channel) (c : Conn B) (r w : Bool)
      → Wants (f c.channel) r w
      → Wants (applied f c).channel r w
  unfolding applied
  applied-Wants f c r w h = h

  -- Queueing a functor touches nothing but the queue and the wakeup descriptor.
  module _ (b : Bool) (f : Functor) (c : Conn B) where
    pub queue_if-sent : (queue_if B b f c).sent ≡ c.sent
    unfolding queue_if
    queue_if-sent = ground (arith, b)

    pub queue_if-output_buffer : (queue_if B b f c).output_buffer ≡ c.output_buffer
    unfolding queue_if
    queue_if-output_buffer = ground (arith, b)

    pub queue_if-state : (queue_if B b f c).state ≡ c.state
    unfolding queue_if
    queue_if-state = ground (arith, b)

    pub queue_if-channel : (queue_if B b f c).channel ≡ c.channel
    unfolding queue_if
    queue_if-channel = ground (arith, b)

    pub queue_if-poller : (queue_if B b f c).loop.poller ≡ c.loop.poller
    unfolding queue_if queue_in_loop
    queue_if-poller = ground (arith, b)

    pub queue_if-write_shut : (queue_if B b f c).write_shut ≡ c.write_shut
    unfolding queue_if
    queue_if-write_shut = ground (arith, b)

    pub queue_if-Tracks : Tracks c → Tracks (queue_if B b f c)
    queue_if-Tracks h = rw (queue_if-channel, queue_if-poller) h

  abbrev pub ensured : Conn B → Conn B
  ensured c = if is_writing c.channel then c else applied want_writing c

  pub ensure_writing-ensured : (c : Conn B) → Tracks c → ensure_writing B c ≡ ok (ensured c)
  unfolding ensure_writing
  ensure_writing-ensured c h =
      ground (arith, with_events-applied want_writing want_writing-Keeps c h)
