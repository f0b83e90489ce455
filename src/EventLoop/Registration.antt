-- ===== src/EventLoop/Registration.antt =====
-- Registering, and disabling and removing a channel, as the owners of channels do with SrcFile/EventLoop.c.
use simple_net_base.Prelude.{
  ℕ, ◌≡◌, ◌≢◌, refl, true, false, not, ◌||◌, none, arith, ◌==◌, if◌then◌else◌, lookup, lookup-erase,
  Returns, Returns-bind,
}
use simple_net_base.Channel.{
  Channel, Index, new, added, deleted, none_event, want_nothing, is_none_event,
}
use simple_net_base.Poller.Registration.{
  IsTracked, SameElsewhere, update_channel-IsTracked, next_index, updated, update_channel-updated,
  updated-IsTracked, updated-SameElsewhere, removed, remove_channel-removed,
}
use simple_net_base.EventLoop
use simple_net_base.Poller
use simple_net_base.EventLoop.{EventLoop, is_current, elem, remove_from_loop}

next_index-registered : (i : Index) → next_index i true ≢ new
next_index-registered new e = cc
next_index-registered added e = cc
next_index-registered deleted e = cc

module _ {F : Type 0} where
  -- The loop lets the channel be removed.
  abbrev pub LetsRemove : ℕ → EventLoop F → Type 0
  LetsRemove id l =
      (not l.event_handling
        || (is_current id l.current_active_channel || not (elem id l.active_channels)))
      ≡ true

  -- The channel is as new, its descriptor is free, and nothing else of the loop has changed.
  abbrev pub Unregistered : Channel → EventLoop F → Channel × EventLoop F → Type 0
  Unregistered ch l (d, m) =
      (d ≡ record ch { events = none_event; index = new; added_to_loop = false })
      × ((j : ℕ)
          → lookup j m.poller.channels ≡ (if ch.fd == j then none else lookup j l.poller.channels))
      × (record m { poller = l.poller } ≡ l)

  pub remove_from_loop-Unregistered :
      (ch : Channel) (l : EventLoop F)
      → IsTracked ch l.poller
      → LetsRemove ch.id l
      → Returns (Unregistered ch l) (remove_from_loop ch l)
  unfolding remove_from_loop EventLoop.update_channel EventLoop.remove_channel want_nothing updated
      removed is_none_event
  remove_from_loop-Unregistered ch l t quiet =
      let ch0 : Channel = record (want_nothing ch) { added_to_loop = true } in
      let first = updated ch0.index ch0 l.poller in
      let ch1 : Channel = record (first.0) { added_to_loop = false } in
      rw
        (
          update_channel-updated ch0 l.poller t,
          quiet,
          remove_channel-removed ch1 first.1 (updated-IsTracked ch0.index ch0 l.poller t) refl
              (next_index-registered ch.index),
        )
        (
          refl,
          (λ j. ground (
            arith,
            lookup-erase ch.fd j first.1.channels,
            updated-SameElsewhere ch0.index ch0 l.poller t j,
          )),
          refl,
        )

  -- The channel is registered, and nothing else of the loop has changed.
  abbrev pub Registered : Channel → EventLoop F → Channel × EventLoop F → Type 0
  Registered c l (d, m) =
      IsTracked d m.poller
      × SameElsewhere c.fd l.poller m.poller
      × (d ≡ record c { added_to_loop = true; index = next_index c.index (is_none_event c) })
      × (record m { poller = l.poller } ≡ l)

  pub update_channel-Registered :
      (c : Channel) (l : EventLoop F)
      → IsTracked c l.poller
      → Returns (Registered c l) (EventLoop.update_channel c l)
  unfolding EventLoop.update_channel is_none_event
  update_channel-Registered c l t =
      let c0 : Channel = record c { added_to_loop = true } in
      Returns-bind
        (λ r.
          IsTracked r.0 r.1
          × SameElsewhere c.fd l.poller r.1
          × (r.0 ≡ record c0 { index = next_index c.index (is_none_event c) }))
        (Registered c l) (Poller.update_channel c0 l.poller) _
        (update_channel-IsTracked c0 l.poller t)
        λ (d, p) (tracked, rest, same). (tracked, rest, same, refl)
