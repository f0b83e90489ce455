-- ===== src/Connector/Ownership.antt =====
-- What SrcFile/Connector.c owns between two events, and what removing a channel, retrying and the end of
-- an attempt do to it.
use simple_net_base.Prelude.{
  ℕ, count, ◌+◌, ◌≤◌, ◌≡◌, ◌∙◌, sym, ap, Bool, true, false, List, [], ◌∷◌, Option, none, some,
  arith, Bool-cases, inl, inr, Returns, Returns-bind, Returns-mono,
}
use simple_net_base.Channel.{Channel, added}
use simple_net_base.EventLoop.Registration.{LetsRemove, Unregistered, remove_from_loop-Unregistered}
use simple_net_base.EventLoop.{remove_from_loop, EventLoop}
use simple_net_base.Functor.{Functor}
use simple_net_base.Poller.Registration.{IsTracked}
use simple_net_base.Connector.{
  Connector, State, disconnected, connecting, connected, is_connecting, retry,
  remove_and_reset_channel, connected_with,
}

abbrev pub held : State → Option Channel → List ℕ
held connecting (some ch) = ch.fd ∷ []
held _ _ = []

abbrev pub Gone : Channel → Channel × EventLoop Functor → Type 0
Gone ch (d, l) = (d.fd ≡ ch.fd) × (d.added_to_loop ≡ false) × (d.event_handling ≡ ch.event_handling)

removal-Gone :
    (ch : Channel) (l : EventLoop Functor)
    → IsTracked ch l.poller
    → LetsRemove ch.id l
    → Returns (Gone ch) (remove_from_loop ch l)
removal-Gone ch l t quiet =
    Returns-mono (Unregistered ch l) (Gone ch) (remove_from_loop ch l)
      (remove_from_loop-Unregistered ch l t quiet) λ (d, m) r. (cc, cc, cc)

-- The channel of an attempt that is going on.
abbrev pub Watches : Channel → Connector → Type 0
Watches ch c =
    (c.channel ≡ some ch)
    × IsTracked ch c.loop.poller
    × (ch.index ≡ added)
    × (ch.event_handling ≡ false)

-- A channel that is waiting for its reset.
abbrev pub IsLeft : Option Channel → Type 0
IsLeft none = Unit {0}
IsLeft (some ch) = (ch.added_to_loop ≡ false) × (ch.event_handling ≡ false)

pub record Inv (c : Connector) : Type 0 where
  pub shortest : 500 ≤ c.retry_delay_ms
  pub longest : c.retry_delay_ms ≤ 30000
  pub accounted :
      (x : ℕ)
      → count x c.opened ≡ count x c.closed + count x c.handed + count x (held c.state c.channel)
  pub watching : is_connecting c.state ≡ true → (ch : Channel) × Watches ch c
  pub left : is_connecting c.state ≡ false → IsLeft c.channel

-- What is on its way between the removal of the channel and the decision about the descriptor.
abbrev pub Removed : Connector → ℕ × Connector → Type 0
Removed c (fd, d) =
    (500 ≤ d.retry_delay_ms)
    × (d.retry_delay_ms ≤ 30000)
    × ((x : ℕ) → count x d.opened ≡ count x d.closed + count x d.handed + count x (fd ∷ []))
    × IsLeft d.channel

held_of :
    (s : State) (o : Option Channel) (ch : Channel) (x : ℕ)
    → is_connecting s ≡ true
    → o ≡ some ch
    → count x (held s o) ≡ count x (ch.fd ∷ [])
unfolding is_connecting
held_of connecting o ch x h e = rw e
held_of disconnected o ch x h e = cc
held_of connected o ch x h e = cc

module _ (c : Connector) (v : Inv c) where
  pub remove-Removed :
      (s : State) (ch : Channel)
      → is_connecting c.state ≡ true
      → Watches ch c
      → LetsRemove ch.id c.loop
      → Returns (Removed c) (remove_and_reset_channel (record c { state = s }))
  unfolding remove_and_reset_channel
  remove-Removed s ch h (e, t, i, quiet) lets = rw e (
      Returns-bind (Gone ch) _ (remove_from_loop ch c.loop) _ (removal-Gone ch c.loop t lets)
        λ (d, l) (f, a, g). (
          v.shortest,
          v.longest,
          (λ x.
              v.accounted x
              ∙ ap (λ n. count x c.closed + count x c.handed + n)
                  (held_of c.state c.channel ch x h e ∙ ap (λ y. count x (y ∷ [])) (sym f))),
          (a, g ∙ quiet),
        ))

  pub retry-Inv : (fd : ℕ) (d : Connector) → Removed c (fd, d) → Inv (retry fd d)
  unfolding retry is_connecting
  retry-Inv fd d (low, high, sum, left) = elim (Bool-cases d.connect) [
    | inl on ↦ rw on (record {
      shortest = ground (arith, low, high);
      longest = ground (arith, low, high);
      accounted = λ x. omega (arith, sum x);
      watching = λ k. cc;
      left = λ k. left;
    })
    | inr off ↦ rw off (record {
      shortest = low;
      longest = high;
      accounted = λ x. omega (arith, sum x);
      watching = λ k. cc;
      left = λ k. left;
    })
  ]

  pub connected_with-Inv :
      (error self : Bool) (r : ℕ × Connector)
      → Removed c r
      → Returns Inv (connected_with error self r)
  unfolding connected_with is_connecting
  connected_with-Inv true self (fd, d) r = retry-Inv fd d r
  connected_with-Inv false true (fd, d) r = retry-Inv fd d r
  connected_with-Inv false false (fd, d) (low, high, sum, left) = elim (Bool-cases d.connect) [
    | inl on ↦ rw on (record {
      shortest = low;
      longest = high;
      accounted = λ x. omega (arith, sum x);
      watching = λ k. cc;
      left = λ k. left;
    })
    | inr off ↦ rw off (record {
      shortest = low;
      longest = high;
      accounted = λ x. omega (arith, sum x);
      watching = λ k. cc;
      left = λ k. left;
    })
  ]
