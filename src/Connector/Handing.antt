-- ===== src/Connector/Handing.antt =====
-- What SrcFile/Connector.c passes on when an attempt has succeeded, and what it leaves alone otherwise.
use simple_net_base.Prelude.{
  ℕ, ◌≡◌, ◌⊎◌, ◌∙◌, refl, sym, ap, subst, Bool, true, false, ◌∷◌, Option, none, some, arith, lookup,
  Bool-cases, inl, inr, Returns, Returns-bind, Returns-mono, Returns-both,
}
use simple_net_base.Channel.{Channel}
use simple_net_base.EventLoop.{EventLoop, remove_from_loop}
use simple_net_base.EventLoop.Registration.{LetsRemove, Unregistered, remove_from_loop-Unregistered}
use simple_net_base.Functor.{Functor}
use simple_net_base.Poller.Registration.{IsTracked}
use simple_net_base.Connector.{
  Connector, State, disconnected, connected, is_connecting, is_disconnected, Attempt, outcome,
  goes_on, retry, remove_and_reset_channel, connected_with, restart, handle_error, stop_in_loop,
  reset_from, reset_channel, stop,
}
use simple_net_base.Connector.Ownership.{Watches, Inv, IsLeft}
use simple_net_base.Connector.Accounting.{
  starts, writes, errs, asks_to_stop, stops, resets, Event, CanHappen, step, step-Accounted,
  held-rest, queue_in_loop-poller,
}

-- The channel's descriptor is free in the poller.
abbrev Frees : Channel → Channel × EventLoop Functor → Type 0
Frees ch (d, l) = lookup d.fd l.poller.channels ≡ none

removal-Frees :
    (ch : Channel) (l : EventLoop Functor)
    → IsTracked ch l.poller
    → LetsRemove ch.id l
    → Returns (Frees ch) (remove_from_loop ch l)
removal-Frees ch l t quiet =
    Returns-mono (Unregistered ch l) (Frees ch) (remove_from_loop ch l)
      (remove_from_loop-Unregistered ch l t quiet)
      λ (d, m) (same, free, rest). ground (arith, same, free d.fd)

-- What is on its way besides: a descriptor that the poller does not have, and the rest of the connector.
abbrev pub Passes : Connector → ℕ × Connector → Type 0
Passes c (fd, d) =
    (lookup fd d.loop.poller.channels ≡ none) × (d.handed ≡ c.handed) × (d.connect ≡ c.connect)

pub remove-Passes :
    (c : Connector) (ch : Channel)
    → Watches ch c
    → LetsRemove ch.id c.loop
    → Returns (Passes c) (remove_and_reset_channel c)
unfolding remove_and_reset_channel
remove-Passes c ch (e, t, i, quiet) lets = rw e (
    Returns-bind (Frees ch) _ (remove_from_loop ch c.loop) _ (removal-Frees ch c.loop t lets)
      λ (d, l) f. (
        ap (λ p. lookup d.fd p.channels)
              (queue_in_loop-poller l.thread_id (Functor.reset_channel c.id) l)
            ∙ f,
        refl,
        refl,
      ))

-- How the descriptor has been dealt with: it is not handed on, or it is and the connector is connected.
abbrev pub Dealt : ℕ → Connector → Connector → Type 0
Dealt fd d k =
    (k.handed ≡ d.handed) ⊎ ((k.state ≡ connected) × (k.handed ≡ fd ∷ d.handed) × (k.loop ≡ d.loop))

retry-handed : (fd : ℕ) (d : Connector) → (retry fd d).handed ≡ d.handed
unfolding retry
retry-handed fd d = elim (Bool-cases d.connect) [ inl on ↦ rw on | inr off ↦ rw off ]

pub connected_with-Dealt :
    (error self : Bool) (fd : ℕ) (d : Connector)
    → Returns (Dealt fd d) (connected_with error self (fd, d))
unfolding connected_with
connected_with-Dealt true self fd d = inl (retry-handed fd d)
connected_with-Dealt false true fd d = inl (retry-handed fd d)
connected_with-Dealt false false fd d = elim (Bool-cases d.connect) [
  | inl on ↦ rw on (inr (refl, refl, refl))
  | inr off ↦ rw off (inl refl)
]

module _ (c : Connector) (v : Inv c) where
  -- With no attempt going on the connector does not look at its loop.
  pub other_loop-Inv :
      (l : EventLoop Functor) → is_connecting c.state ≡ false → Inv (record c { loop = l })
  other_loop-Inv l idle = record {
    shortest = v.shortest;
    longest = v.longest;
    accounted = v.accounted;
    watching = λ k. cc;
    left = v.left;
  }

  -- Asking for a connection or for a stop, with a functor queued.
  pub asked-Inv :
      (b : Bool) (l : EventLoop Functor)
      → l.poller ≡ c.loop.poller
      → Inv (record c { connect = b; loop = l })
  asked-Inv b l same = record {
    shortest = v.shortest;
    longest = v.longest;
    accounted = v.accounted;
    watching = λ k.
        let (ch, (e, t, i, g)) = v.watching k in
        (ch, (e, subst (λ p. IsTracked ch p) (sym same) t, i, g));
    left = v.left;
  }

  pub restart-Inv :
      (a : Attempt)
      → is_connecting c.state ≡ false
      → (outcome a.error ≡ goes_on → c.channel ≡ none)
      → lookup a.fd c.loop.poller.channels ≡ none
      → Returns Inv (restart a c)
  unfolding restart step is_connecting is_disconnected
  restart-Inv a idle left free =
      let c' : Connector = record c {
        state = disconnected;
        retry_delay_ms = 500;
        connect = true;
      } in
      step-Accounted (starts a) c' (refl, (λ b g. left g), free)
        (record {
          shortest = omega arith;
          longest = omega arith;
          accounted = λ x. omega (arith, v.accounted x, held-rest c.state c.channel x idle);
          watching = λ k. cc;
          left = λ k. v.left idle;
        })

-- Of a connector that is connected: what an event leaves alone.
abbrev pub Rests : Connector → Connector → Type 0
Rests c d = (d.state ≡ connected) × (d.loop.poller ≡ c.loop.poller)

-- An event that neither starts an attempt nor comes from the channel.
abbrev pub is_quiet : Event → Bool
is_quiet (starts a) = false
is_quiet (writes error self) = false
is_quiet _ = true

pub idle_of_connected : (s : State) → s ≡ connected → is_connecting s ≡ false
unfolding is_connecting
idle_of_connected s e = rw e

reset_from-Rests :
    (o : Option Channel) (c : Connector)
    → c.state ≡ connected
    → IsLeft o
    → Returns (Rests c) (reset_from o c)
unfolding reset_from
reset_from-Rests none c e left = (e, refl)
reset_from-Rests (some ch) c e left = rw (left.1, left.0) (e, refl)

step-Rests :
    (x : Event) (c : Connector)
    → is_quiet x ≡ true
    → c.state ≡ connected
    → Inv c
    → Returns (Rests c) (step x c)
unfolding step handle_error stop_in_loop stop reset_channel
step-Rests (starts a) c q e v = cc
step-Rests (writes error self) c q e v = cc
step-Rests errs c q e v = rw (idle_of_connected c.state e) (e, refl)
step-Rests (asks_to_stop caller) c q e v =
    (e, queue_in_loop-poller caller (Functor.stop_in_loop c.id) c.loop)
step-Rests stops c q e v = rw (idle_of_connected c.state e) (e, refl)
step-Rests resets c q e v = reset_from-Rests c.channel c e (v.left (idle_of_connected c.state e))

-- The two facts that the owner of a connected connector goes by.
pub step-Connected :
    (x : Event) (c : Connector)
    → is_quiet x ≡ true
    → c.state ≡ connected
    → CanHappen x c
    → Inv c
    → Returns (λ d. Inv d × Rests c d) (step x c)
step-Connected x c q e h v =
    Returns-both Inv (Rests c) (step x c) (step-Accounted x c h v) (step-Rests x c q e v)
