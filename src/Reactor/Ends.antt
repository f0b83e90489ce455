-- ===== src/Reactor/Ends.antt =====
-- The constructor and the destructor of SrcFile/EventLoop.c.
use simple_net_base.Prelude.{
  ℕ, ◌≡◌, ◌≢◌, ◌⊎◌, refl, sym, ap, ◌∙◌, Bool, true, false, not, ◌||◌, [], ◌∷◌, Option, none, some,
  arith, ◌==◌, if◌then◌else◌, lookup, Returns, Returns-bind, Returns-mono, Returns-and,
  Returns-bind_to, Result, is_none, ◌>>=◌, ◌>>◌, inl, inr, ok, fault, aborted,
}
use simple_net_base.Channel
use simple_net_base.Channel.{Channel, new, added, want_reading, is_none_event}
use simple_net_base.Poller.{Poller, ctl_add}
use simple_net_base.Poller.Registration.{IsTracked, updated, update_channel-updated}
use simple_net_base.Functor.{Functor}
use simple_net_base.EventLoop
use simple_net_base.EventLoop.{EventLoop, remove_from_loop}
use simple_net_base.EventLoop.Registration.{
  Registered, update_channel-Registered, Unregistered, remove_from_loop-Unregistered,
}
use simple_net_base.TimerQueue.{delete_all}
use simple_net_base.TimerQueue.Operations.{Owns}
use simple_net_base.TimerQueue.Ending.{Freed, delete_all-Freed}
use simple_net_base.Reactor.{
  Reactor, Setting, Ended, construct, as_int, create_eventfd, empty_poller, abort_if, empty_queue,
  destroy, destroy_channel,
}

-- Both channels of the loop are registered as they say, no event is being handled, and the timer queue has
-- its invariant.
pub record IsSound (Out : ℕ → Type 0) (r : Reactor) : Type 0 where
  pub wakeup_tracked : IsTracked r.wakeup_channel r.loop.poller
  pub timer_tracked : IsTracked r.timer_channel r.loop.poller
  pub distinct : r.wakeup_channel.fd ≢ r.timer_channel.fd
  pub quiet : r.loop.event_handling ≡ false
  pub wakeup_idle : r.wakeup_channel.event_handling ≡ false
  pub timer_idle : r.timer_channel.event_handling ≡ false
  pub owns : Owns Out r.timers

-- `hasChannel` does not find a channel whose descriptor is free.
abbrev pub FindsRegistered : (Channel → Poller → Bool) → Type 0
FindsRegistered has_channel =
    (c : Channel) (p : Poller) → lookup c.fd p.channels ≡ none → has_channel c p ≡ false

-- The poller has neither of the loop's descriptors and the others as before, the timers that were queued
-- are gone and no other, both descriptors are closed, and the thread has no loop.
abbrev pub Released : Reactor → Ended → Type 0
Released r e =
    ((j : ℕ)
      → lookup j e.poller.channels ≡ (
          if r.timer_channel.fd == j || r.wakeup_channel.fd == j
          then none
          else lookup j r.loop.poller.channels))
    × Freed r.timers.timers r.timers.heap e.heap
    × (e.closed ≡ r.timer_channel.fd ∷ r.wakeup_channel.fd ∷ [])
    × (e.loop_in_this_thread ≡ none)

module _ (has_channel : Channel → Poller → Bool) (finds : FindsRegistered has_channel)
    (caller : ℕ) where
  -- A channel that has been removed can be destroyed, and its descriptor is free.
  abbrev IsReleased : Channel → EventLoop Functor → Channel × EventLoop Functor → Type 0
  IsReleased c l (d, m) =
      (destroy_channel has_channel caller d m ≡ ok tt)
      × (d.fd ≡ c.fd)
      × (m.event_handling ≡ false)
      × ((j : ℕ)
          → lookup j m.poller.channels ≡ (if c.fd == j then none else lookup j l.poller.channels))

  remove_from_loop-IsReleased :
      (c : Channel) (l : EventLoop Functor)
      → IsTracked c l.poller
      → l.event_handling ≡ false
      → c.event_handling ≡ false
      → Returns (IsReleased c l) (remove_from_loop c l)
  unfolding destroy_channel
  remove_from_loop-IsReleased c l t quiet idle =
      Returns-mono (Unregistered c l) (IsReleased c l) (remove_from_loop c l)
        (remove_from_loop-Unregistered c l t (rw quiet refl))
        λ (d, m) (same, free, rest).
          let e : m.event_handling ≡ false = ap (λ x. x.event_handling) rest ∙ quiet in
          let f : d.fd ≡ c.fd = ap (λ x. x.fd) same in
          let g : lookup d.fd m.poller.channels ≡ none = ground (arith, f, free d.fd) in
          (
            rw
                (
                  finds d m.poller g,
                  ap (λ x. x.event_handling) same ∙ idle,
                  ap (λ x. x.added_to_loop) same,
                )
                (ground arith),
            f,
            e,
            free,
          )

  -- For a `hasChannel` that does not find a channel whose descriptor is free: of a sound loop, the
  -- destructor meets no failed assertion and no dead pointer, whatever thread runs it. It takes both of the
  -- loop's own descriptors out of the poller and closes them, keeps the other descriptors registered,
  -- deletes the queued timers and no other, and leaves the thread without a loop.
  pub destroy-Released :
      {Out : ℕ → Type 0} (r : Reactor)
      → IsSound Out r
      → Returns (Released r) (destroy has_channel caller r)
  unfolding destroy
  destroy-Released r s =
      Returns-bind (IsReleased r.wakeup_channel r.loop) (Released r)
        (remove_from_loop r.wakeup_channel r.loop) _
        (remove_from_loop-IsReleased r.wakeup_channel r.loop s.wakeup_tracked s.quiet s.wakeup_idle)
        λ (w, l1) (end, same, quiet, free). rw end (
          Returns-bind (IsReleased r.timer_channel l1) (Released r)
            (remove_from_loop r.timer_channel l1) _
            (remove_from_loop-IsReleased r.timer_channel l1
              (ground (arith, free r.timer_channel.fd, s.distinct, s.timer_tracked)) quiet
              s.timer_idle)
            λ (t, l2) (end2, same2, quiet2, free2).
              Returns-bind (Freed r.timers.timers r.timers.heap) (Released r)
                (delete_all r.timers.timers r.timers.heap) _
                (delete_all-Freed r.timers.timers s.owns)
                λ h f.
                  rw end2 ((λ j. ground (arith, free j, free2 j)), f, rw (same, same2) refl, refl))

queue-Owns : (n : ℕ) → Owns (λ p. ⊥) (empty_queue n)
unfolding lookup
queue-Owns n = record {
  sorted = tt;
  active_sorted = tt;
  sizes = refl;
  queued = λ e p i. elim i [ ];
  active = λ p t i. elim i [ ];
  outside = λ p o. elim o [ ];
  low = λ p t h. ground (arith, h);
}

constructed-IsSound :
    (s : Setting) (fd : ℕ)
    → s.eventfd ≡ some fd
    → fd ≢ as_int s.timerfd
    → Returns (λ (r, here). IsSound (λ p. ⊥) r × (here ≡ some s.address)) (construct s none)
unfolding construct create_eventfd Channel.init EventLoop.init want_reading lookup
constructed-IsSound s fd e other =
    let tc : Channel = want_reading (Channel.init s.timer_channel_address (as_int s.timerfd)) in
    let wc : Channel = want_reading (Channel.init s.wakeup_channel_address fd) in
    let l : EventLoop Functor = EventLoop.init s.tid (empty_poller s.events_size) in
    Returns-bind (Registered tc l) _ (EventLoop.update_channel tc l) _
      (update_channel-Registered tc l refl)
      λ (t, l1) (tracked, rest, same, kept). rw e (
        Returns-bind (Registered wc l1) _ (EventLoop.update_channel wc l1) _
          (update_channel-Registered wc l1 (rest fd other))
          λ (w, l2) (tracked2, rest2, same2, kept2). (
            record {
              wakeup_tracked = tracked2;
              timer_tracked = rest2 t.fd (λ x. other (sym x ∙ ap (λ z. z.fd) same)) ∙ tracked;
              distinct = λ x. other (sym (ap (λ z. z.fd) same2) ∙ x ∙ ap (λ z. z.fd) same);
              quiet = ap (λ x. x.event_handling) kept2 ∙ ap (λ x. x.event_handling) kept;
              wakeup_idle = ap (λ x. x.event_handling) same2;
              timer_idle = ap (λ x. x.event_handling) same;
              owns = queue-Owns s.num_created;
            },
            refl,
          ))

-- The poller has been told of the wakeup descriptor and of the timer descriptor, each once, to add it with the
-- events of <poll.h> for reading, 1 and 2, for its channel; each channel wants these, and has been added.
abbrev pub IsListening : Setting → ℕ → Reactor → Type 0
IsListening s fd r =
    (r.loop.poller.ctls
      ≡ record { op = ctl_add; fd = fd; events = 3; ptr = s.wakeup_channel_address }
        ∷ record { op = ctl_add; fd = as_int s.timerfd; events = 3; ptr = s.timer_channel_address }
        ∷ [])
    × (r.wakeup_channel.events ≡ 3)
    × (r.timer_channel.events ≡ 3)
    × (r.wakeup_channel.index ≡ added)
    × (r.timer_channel.index ≡ added)

free_beside : (a b x : ℕ) → b ≢ a → lookup b ((a, x) ∷ []) ≡ none
unfolding lookup
free_beside a b x e = ground (arith, e)

constructed-IsListening :
    (s : Setting) (fd : ℕ)
    → s.eventfd ≡ some fd
    → fd ≢ as_int s.timerfd
    → Returns (λ (r, here). IsListening s fd r) (construct s none)
unfolding construct create_eventfd Channel.init EventLoop.init EventLoop.update_channel want_reading
    lookup updated is_none_event simple_net_base.Prelude.insert
constructed-IsListening s fd e other =
    let tc : Channel =
      record (want_reading (Channel.init s.timer_channel_address (as_int s.timerfd))) {
        added_to_loop = true;
      } in
    let wc : Channel = record (want_reading (Channel.init s.wakeup_channel_address fd)) {
      added_to_loop = true;
    } in
    let p1 : Poller = (updated new tc (empty_poller s.events_size)).1 in
    let free = free_beside (as_int s.timerfd) fd s.timer_channel_address other in
    rw
      (
        update_channel-updated tc (empty_poller s.events_size) refl,
        e,
        update_channel-updated wc p1 free,
      )
      (refl, refl, refl, refl, refl)

-- If `eventfd` answers with a descriptor that is not the timer's, and the thread has no loop yet, the
-- constructor returns, and the thread's loop is the new one. The loop is sound, with no timer outside of its queue; the
-- kernel has been told, once for each of the two descriptors, to watch it for reading. This holds also if
-- timerfd_create has failed: the code goes on, and the timer's descriptor is then -1.
pub construct-IsSound :
    (s : Setting) (fd : ℕ)
    → s.eventfd ≡ some fd
    → fd ≢ as_int s.timerfd
    → Returns
        (λ (r, here). IsSound (λ p. ⊥) r × (here ≡ some s.address) × IsListening s fd r)
        (construct s none)
construct-IsSound s fd e other =
    Returns-mono _ _ (construct s none)
      (Returns-and (λ (r, here). IsSound (λ p. ⊥) r × (here ≡ some s.address))
        (λ (r, here). IsListening s fd r) (construct s none) (constructed-IsSound s fd e other)
        (constructed-IsListening s fd e other))
      λ x w. (w.0.0, w.0.1, w.1)

refused :
    (eventfd here : Option ℕ) (k : ℕ → Result (Reactor × Option ℕ))
    → (eventfd ≡ none) ⊎ ((a : ℕ) × (here ≡ some a))
    → (create_eventfd eventfd >>= λ fd. abort_if (not (is_none here)) >> k fd) ≡ fault aborted
unfolding create_eventfd
refused none here k e = refl
refused (some fd) (some a) k e = refl
refused (some fd) none k (inl e) = ground (arith, e)
refused (some fd) none k (inr (a, e)) = ground (arith, e)

-- A second loop in a thread, or no descriptor from `eventfd`, ends the program.
pub construct-aborts :
    (s : Setting) (here : Option ℕ)
    → (s.eventfd ≡ none) ⊎ ((a : ℕ) × (here ≡ some a))
    → construct s here ≡ fault aborted
unfolding construct EventLoop.init Channel.init want_reading lookup
construct-aborts s here e =
    let tc : Channel = want_reading (Channel.init s.timer_channel_address (as_int s.timerfd)) in
    let l : EventLoop Functor = EventLoop.init s.tid (empty_poller s.events_size) in
    Returns-bind_to (Registered tc l) (fault aborted) (EventLoop.update_channel tc l) _
      (update_channel-Registered tc l refl) λ (t, l1) v. refused s.eventfd here _ e
