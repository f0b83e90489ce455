-- ===== src/Connector/Outcomes.antt =====
-- What each event does to a connector of SrcFile/Connector.c in whatever state it comes.
use simple_net_base.Prelude.{
  ◌≡◌, refl, subst, ap, Bool, true, false, not, ◌&&◌, ◌||◌, ◌∷◌, Option, none, some, arith, lookup,
  if◌then◌else◌, is_none, Bool-cases, inl, inr, ok, fault, assert_failed, Result, Returns,
}
use simple_net_base.Channel.{Channel, want_nothing, is_none_event}
use simple_net_base.EventLoop
use simple_net_base.EventLoop.{EventLoop, is_current, elem, remove_from_loop}
use simple_net_base.Functor.{Functor}
use simple_net_base.Poller.Registration.{IsTracked, updated, update_channel-updated}
use simple_net_base.Connector.{
  Connector, State, disconnected, is_connecting, is_disconnected, Attempt, Outcome, goes_on,
  tries_again, gives_up, outcome, connecting_with, connect_as, try_connect, start_in_loop,
  remove_and_reset_channel, handle_write, handle_error, stop_in_loop,
}
use simple_net_base.Connector.Ownership.{Inv}
use simple_net_base.Connector.Accounting.{
  Event, starts, writes, errs, asks_to_stop, stops, resets, step, step-Accounted, Removable,
  CanHappen,
}

-- Whether the loop lets the channel be removed.
abbrev pub lets_remove : Option Channel → EventLoop Functor → Bool
lets_remove none l = true
lets_remove (some ch) l =
    not l.event_handling
    || (is_current ch.id l.current_active_channel || not (elem ch.id l.active_channels))

abbrev pub goes : Outcome → Bool
goes goes_on = true
goes tries_again = false
goes gives_up = false

-- A new socket's descriptor is not in the poller, and a reset comes when no attempt is going on.
abbrev pub IsPlaced : Event → Connector → Type 0
IsPlaced (starts a) c = lookup a.fd c.loop.poller.channels ≡ none
IsPlaced resets c = is_connecting c.state ≡ false
IsPlaced _ c = Unit {0}

-- The states for which an event is meant.
abbrev pub is_timely : Event → Connector → Bool
is_timely (starts a) c =
    is_disconnected c.state
    && not (c.connect && (goes (outcome a.error) && not (is_none c.channel)))
is_timely (writes error self) c =
    if is_connecting c.state then lets_remove c.channel c.loop else is_disconnected c.state
is_timely errs c = if is_connecting c.state then lets_remove c.channel c.loop else true
is_timely stops c = if is_connecting c.state then lets_remove c.channel c.loop else true
is_timely _ c = true

abbrev pub Ended : Event → Connector → Type 0
Ended x c =
    (is_timely x c ≡ true → Returns Inv (step x c))
    × (is_timely x c ≡ false → step x c ≡ fault assert_failed)

pub none_of : (o : Option Channel) → is_none o ≡ true → o ≡ none
none_of none e = refl
none_of (some ch) e = cc

start_fresh :
    (a : Attempt) (c : Connector)
    → is_timely (starts a) c ≡ true
    → c.connect ≡ true
    → outcome a.error ≡ goes_on
    → c.channel ≡ none
start_fresh a c h b g = none_of c.channel (ground (arith, h, b, ap goes g))

pub start_stops :
    (o : Outcome) (a : Attempt) (c : Connector)
    → (goes o && not (is_none c.channel)) ≡ true
    → connect_as o a (record c { opened = a.fd ∷ c.opened }) ≡ fault assert_failed
unfolding connect_as connecting_with
start_stops goes_on a c h = let left : is_none c.channel ≡ false = ground (arith, h) in rw left refl
start_stops tries_again a c h = cc
start_stops gives_up a c h = cc

pub chosen_fault :
    (b : Bool) (m n : Result Connector)
    → b ≡ true
    → m ≡ fault assert_failed
    → (if b then m else n) ≡ fault assert_failed
chosen_fault b m n e h = rw e h

pub start_refuses :
    (a : Attempt) (c : Connector)
    → is_timely (starts a) c ≡ false
    → start_in_loop a c ≡ fault assert_failed
unfolding start_in_loop try_connect
start_refuses a c h = elim (Bool-cases (is_disconnected c.state)) [
  | inl idle ↦
      let on : c.connect ≡ true = ground (arith, h, idle) in
      rw idle (
        chosen_fault c.connect _ (ok c) on
          (start_stops (outcome a.error) a c (ground (arith, h, idle, on))))
  | inr busy ↦ rw busy refl
]

removable :
    (c : Connector)
    → (is_connecting c.state ≡ true → lets_remove c.channel c.loop ≡ true)
    → Removable c
removable c h going ch e = subst (λ o. lets_remove o c.loop ≡ true) e (h going)

removal_refuses :
    (ch : Channel) (l : EventLoop Functor)
    → IsTracked ch l.poller
    → lets_remove (some ch) l ≡ false
    → remove_from_loop ch l ≡ fault assert_failed
unfolding remove_from_loop EventLoop.update_channel EventLoop.remove_channel want_nothing updated
    is_none_event
removal_refuses ch l t h =
    let ch0 : Channel = record (want_nothing ch) { added_to_loop = true } in
    rw (update_channel-updated ch0 l.poller t, h) refl

remove_refuses :
    (s : State) (c : Connector)
    → Inv c
    → is_connecting c.state ≡ true
    → lets_remove c.channel c.loop ≡ false
    → remove_and_reset_channel (record c { state = s }) ≡ fault assert_failed
unfolding remove_and_reset_channel
remove_refuses s c v going h =
    let (ch, w) = v.watching going in
    rw (w.0, removal_refuses ch c.loop w.1 (subst (λ o. lets_remove o c.loop ≡ false) w.0 h)) refl

-- What the handler of an attempt does, whichever it is, if its channel cannot be removed.
write_refuses :
    (error self : Bool) (c : Connector)
    → Inv c
    → is_timely (writes error self) c ≡ false
    → handle_write error self c ≡ fault assert_failed
unfolding handle_write
write_refuses error self c v h = elim (Bool-cases (is_connecting c.state)) [
  | inl going ↦
      let r = remove_refuses c.state c v going (ground (arith, h, going)) in rw (going, r) refl
  | inr idle ↦
      let busy : is_disconnected c.state ≡ false = ground (arith, h, idle) in rw (idle, busy) refl
]

error_refuses :
    (c : Connector) → Inv c → is_timely errs c ≡ false → handle_error c ≡ fault assert_failed
unfolding handle_error
error_refuses c v h =
    let going : is_connecting c.state ≡ true = ground (arith, h) in
    let r = remove_refuses c.state c v going (ground (arith, h, going)) in rw (going, r) refl

stop_refuses :
    (c : Connector) → Inv c → is_timely stops c ≡ false → stop_in_loop c ≡ fault assert_failed
unfolding stop_in_loop
stop_refuses c v h =
    let going : is_connecting c.state ≡ true = ground (arith, h) in
    let r = remove_refuses disconnected c v going (ground (arith, h, going)) in rw (going, r) refl

-- An event in its time is one that can happen.
pub can_happen : (x : Event) (c : Connector) → IsPlaced x c → is_timely x c ≡ true → CanHappen x c
unfolding is_connecting is_disconnected
can_happen (starts a) c p h = (ground (arith, h), start_fresh a c h, p)
can_happen (writes error self) c p h = (
  removable c (λ going. ground (arith, h, going)),
  λ up. absurd (ground (arith, h, ap is_connecting up, ap is_disconnected up)),
)
can_happen errs c p h = removable c (λ going. ground (arith, h, going))
can_happen (asks_to_stop caller) c p h = tt
can_happen stops c p h = removable c (λ going. ground (arith, h, going))
can_happen resets c p h = p

pub refuses :
    (x : Event) (c : Connector) → Inv c → is_timely x c ≡ false → step x c ≡ fault assert_failed
unfolding step
refuses (starts a) c v h = start_refuses a c h
refuses (writes error self) c v h = write_refuses error self c v h
refuses errs c v h = error_refuses c v h
refuses (asks_to_stop caller) c v h = cc
refuses stops c v h = stop_refuses c v h
refuses resets c v h = cc

-- In every state with the invariant, for a start whose socket's descriptor is not in the poller, and a reset that
-- comes when no attempt is going on, and any other event: it keeps the invariant, with no failed assertion
-- and no null channel, but for these, which end in a failed assertion: startInLoop when the connector is not
-- disconnected, or when the attempt goes on and the last channel has not been reset yet; a write
-- event when the connector is connected; and a write event, an error or stopInLoop during an attempt when
-- the loop does not let the channel be removed. The invariant: the delay is between 500 and 30000
-- milliseconds, and each descriptor has been made as often as it has been closed, handed on, or is held by the attempt
-- that is going on.
pub step-Ended : (x : Event) (c : Connector) → IsPlaced x c → Inv c → Ended x c
step-Ended x c p v = ((λ h. step-Accounted x c (can_happen x c p h) v), refuses x c v)
