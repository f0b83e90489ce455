-- ===== src/Connector/Accounting.antt =====
-- Every descriptor that SrcFile/Connector.c makes is closed once, or handed on once, or held by the channel
-- of the attempt that is going on.
use simple_net_base.Prelude.{
  ℕ, count, ◌+◌, ◌≡◌, ◌≢◌, ◌∙◌, refl, sym, ap, subst, Bool, true, false, ◌∷◌, Option, none, some,
  arith, lookup, if◌then◌else◌, Bool-cases, inl, inr, Result, ok, Returns, Returns-bind,
}
use simple_net_base.Channel
use simple_net_base.Channel.{
  Channel, new, added, deleted, want_nothing, want_writing, is_none_event,
}
use simple_net_base.EventLoop
use simple_net_base.EventLoop.{EventLoop, is_current, elem, queue_in_loop}
use simple_net_base.Functor.{Functor}
use simple_net_base.Poller.Registration.{
  IsTracked, updated, update_channel-updated, updated-IsTracked,
}
use simple_net_base.Connector.{
  Connector, State, disconnected, connecting, connected, is_connecting, is_disconnected, Attempt,
  Outcome, goes_on, tries_again, gives_up, outcome, connecting_with, connect_as, try_connect,
  start_in_loop, remove_and_reset_channel, reset_from, reset_channel, stop, stop_in_loop,
  handle_write, handle_error,
}
use simple_net_base.EventLoop.Registration.{LetsRemove}
use simple_net_base.Connector.Ownership.{
  held, Inv, IsLeft, Removed, remove-Removed, retry-Inv, connected_with-Inv,
}

-- What can happen to a connector: an attempt starts, its channel is written or fails, a stop is asked for
-- and carried out, the channel is reset.
pub data Event : Type 0 where
  starts : Attempt → Event
  writes : Bool → Bool → Event
  errs : Event
  asks_to_stop : ℕ → Event
  stops resets : Event

unfoldable pub step : Event → Connector → Result Connector
unfolding start_in_loop handle_write handle_error stop_in_loop reset_channel
step (starts a) c = start_in_loop a c
step (writes error self) c = handle_write error self c
step errs c = handle_error c
step (asks_to_stop caller) c = ok (stop caller c)
step stops c = stop_in_loop c
step resets c = reset_channel c

-- While an attempt is going on the loop lets its channel be removed.
abbrev pub Removable : Connector → Type 0
Removable c =
    is_connecting c.state ≡ true → (ch : Channel) → c.channel ≡ some ch → LetsRemove ch.id c.loop

-- An attempt starts on a disconnected connector, whose last channel has been reset if the attempt goes on, with
-- a descriptor that the poller does not have; a write event comes before the connection is up; a reset comes after the end
-- of an attempt.
abbrev pub CanHappen : Event → Connector → Type 0
CanHappen (starts a) c =
    (is_disconnected c.state ≡ true)
    × (c.connect ≡ true → outcome a.error ≡ goes_on → c.channel ≡ none)
    × (lookup a.fd c.loop.poller.channels ≡ none)
CanHappen (writes error self) c = Removable c × (c.state ≢ connected)
CanHappen errs c = Removable c
CanHappen stops c = Removable c
CanHappen (asks_to_stop caller) c = Unit {0}
CanHappen resets c = is_connecting c.state ≡ false

pub held-rest :
    (s : State) (o : Option Channel) (x : ℕ) → is_connecting s ≡ false → count x (held s o) ≡ 0
unfolding is_connecting
held-rest connecting o x e = cc
held-rest disconnected o x e = refl
held-rest connected o x e = refl

at_start : (s : State) → is_disconnected s ≡ true → is_connecting s ≡ false
unfolding is_connecting is_disconnected
at_start disconnected h = refl
at_start connecting h = cc
at_start connected h = refl

held-idle :
    (s : State) (o : Option Channel) (x : ℕ)
    → is_connecting s ≡ false
    → count x (held s o) ≡ count x (held s none)
unfolding is_connecting
held-idle connecting o x e = cc
held-idle disconnected o x e = refl
held-idle connected o x e = refl

not_both : (s : State) → is_disconnected s ≡ true → is_connecting s ≡ true → ⊥
unfolding is_connecting is_disconnected
not_both disconnected h g = cc
not_both connecting h g = cc
not_both connected h g = cc

start-Inv :
    (o : Outcome) (a : Attempt) (c : Connector)
    → Inv c
    → is_disconnected c.state ≡ true
    → (o ≡ goes_on → c.channel ≡ none)
    → lookup a.fd c.loop.poller.channels ≡ none
    → Returns Inv (connect_as o a (record c { opened = a.fd ∷ c.opened }))
unfolding connect_as connecting_with is_connecting EventLoop.update_channel want_writing
    Channel.init updated
start-Inv goes_on a c v idle none_left free =
    let ch : Channel = record (want_writing (Channel.init a.channel_id a.fd)) {
      added_to_loop = true;
    } in
    rw (none_left refl, update_channel-updated ch c.loop.poller free)
      (record {
        shortest = v.shortest;
        longest = v.longest;
        accounted = λ x.
            omega (arith, v.accounted x, held-rest c.state c.channel x (at_start c.state idle));
        watching = λ k. (
          (updated new ch c.loop.poller).0,
          (refl, updated-IsTracked new ch c.loop.poller free, refl, refl),
        );
        left = λ k. cc;
      })
start-Inv tries_again a c v idle none_left free =
    retry-Inv c v a.fd (record c { opened = a.fd ∷ c.opened })
      (
        v.shortest,
        v.longest,
        (λ x. omega (arith, v.accounted x, held-rest c.state c.channel x (at_start c.state idle))),
        v.left (at_start c.state idle),
      )
start-Inv gives_up a c v idle none_left free = record {
  shortest = v.shortest;
  longest = v.longest;
  accounted = λ x. omega (arith, v.accounted x);
  watching = λ k. absurd (not_both c.state idle k);
  left = v.left;
}

reset_from-Inv :
    (o : Option Channel) (c : Connector)
    → Inv c
    → is_connecting c.state ≡ false
    → IsLeft o
    → Returns Inv (reset_from o c)
unfolding reset_from
reset_from-Inv none c v idle h = v
reset_from-Inv (some ch) c v idle h =
    rw (h.1, h.0)
      (record {
        shortest = v.shortest;
        longest = v.longest;
        accounted = λ x.
            v.accounted x
            ∙ ap (λ n. count x c.closed + count x c.handed + n)
                (held-idle c.state c.channel x idle);
        watching = λ k. cc;
        left = λ k. tt;
      })

pub queue_in_loop-poller :
    (caller : ℕ) (f : Functor) (l : EventLoop Functor)
    → (queue_in_loop caller f l).poller ≡ l.poller
unfolding queue_in_loop
queue_in_loop-poller caller f l = ground arith

chosen :
    (b : Bool) (m : Result Connector) (c : Connector)
    → (b ≡ true → Returns Inv m)
    → Inv c
    → Returns Inv (if b then m else ok c)
chosen true m c h v = h refl
chosen false m c h v = v

pub at_rest : (s : State) → is_connecting s ≡ false → s ≢ connected → is_disconnected s ≡ true
unfolding is_connecting is_disconnected
at_rest disconnected h n = refl
at_rest connecting h n = cc
at_rest connected h n = absurd (n refl)

-- Every event that can happen to a connector with the invariant meets no failed assertion and no null
-- channel, and keeps the invariant: the delay stays between 500 and 30000 milliseconds, and each descriptor
-- has been made as often as it has been closed, handed on, or is held by the attempt that is going on.
pub step-Accounted : (x : Event) (c : Connector) → CanHappen x c → Inv c → Returns Inv (step x c)
unfolding step start_in_loop handle_write handle_error stop_in_loop try_connect stop
step-Accounted (starts a) c h v = rw h.0 (
    chosen c.connect (connect_as (outcome a.error) a (record c { opened = a.fd ∷ c.opened })) c
      (λ b. start-Inv (outcome a.error) a c v h.0 (h.1 b) h.2) v)
step-Accounted (writes error self) c h v = elim (Bool-cases (is_connecting c.state)) [
  | inl going ↦
      let (ch, w) = v.watching going in
      rw going (
        Returns-bind (Removed c) Inv (remove_and_reset_channel c) _
          (remove-Removed c v c.state ch going w (h.0 going ch w.0))
          (connected_with-Inv c v error self))
  | inr idle ↦ rw (idle, at_rest c.state idle h.1) v
]
step-Accounted errs c h v = elim (Bool-cases (is_connecting c.state)) [
  | inl going ↦
      let (ch, w) = v.watching going in
      rw going (
        Returns-bind (Removed c) Inv (remove_and_reset_channel c) _
          (remove-Removed c v c.state ch going w (h going ch w.0)) λ r m. retry-Inv c v r.0 r.1 m)
  | inr idle ↦ rw idle v
]
step-Accounted stops c h v = elim (Bool-cases (is_connecting c.state)) [
  | inl going ↦
      let (ch, w) = v.watching going in
      rw going (
        Returns-bind (Removed c) Inv (remove_and_reset_channel (record c { state = disconnected }))
          _ (remove-Removed c v disconnected ch going w (h going ch w.0))
          λ r m. retry-Inv c v r.0 r.1 m)
  | inr idle ↦ rw idle v
]
step-Accounted (asks_to_stop caller) c h v = record {
  shortest = v.shortest;
  longest = v.longest;
  accounted = v.accounted;
  watching = λ k.
      let (ch, (e, t, i, g)) = v.watching k in
      (
        ch,
        (
          e,
          subst (λ p. IsTracked ch p)
              (sym (queue_in_loop-poller caller (Functor.stop_in_loop c.id) c.loop)) t,
          i,
          g,
        ),
      );
  left = v.left;
}
step-Accounted resets c h v = reset_from-Inv c.channel c v h (v.left h)
