-- ===== src/Poller/Registration.antt =====
-- The bookkeeping of SrcFile/EPollPoller.c: `index_` of a channel, the poller's map and the assertions.
use simple_net_base.Prelude.{
  ℕ, ◌≡◌, ◌≢◌, refl, Bool, true, false, List, ◌∷◌, Option, none, some, arith, lookup, insert, erase,
  lookup-insert, lookup-erase, ok, fault, assert_failed, Returns, ◌⊎◌, ◌==◌, if◌then◌else◌,
}
use simple_net_base.Channel.{Channel, Index, new, added, deleted, is_none_event}
use simple_net_base.Poller.{
  Poller, CtlOp, ctl_add, ctl_mod, ctl_del, update_at, update_channel, remove_channel, is_added,
}

-- What the map has for the channel's descriptor, by the channel's index.
abbrev pub map_entry : Index → ℕ → Option ℕ
map_entry new id = none
map_entry added id = some id
map_entry deleted id = some id

abbrev pub IsTracked : Channel → Poller → Type 0
IsTracked c p = lookup c.fd p.channels ≡ map_entry c.index c.id

-- The rest of the map is as it was.
abbrev pub SameElsewhere : ℕ → Poller → Poller → Type 0
SameElsewhere fd p q = (j : ℕ) → j ≢ fd → lookup j q.channels ≡ lookup j p.channels

-- The index that an update leaves: an added channel that wants nothing any more is deleted.
abbrev pub next_index : Index → Bool → Index
next_index added true = deleted
next_index added false = added
next_index new _ = added
next_index deleted _ = added

abbrev pub next_op : Index → Bool → CtlOp
next_op added true = ctl_del
next_op added false = ctl_mod
next_op new _ = ctl_add
next_op deleted _ = ctl_add

abbrev next_channels : Index → Channel → Poller → List (ℕ × ℕ)
next_channels new c p = insert c.fd c.id p.channels
next_channels added c p = p.channels
next_channels deleted c p = p.channels

-- The state after an update that meets no failed assertion, in one piece.
unfoldable pub updated : Index → Channel → Poller → Channel × Poller
updated i c p = (
  record c { index = next_index i (is_none_event c) },
  record p {
    channels = next_channels i c p;
    ctls =
        record { op = next_op i (is_none_event c); fd = c.fd; events = c.events; ptr = c.id }
        ∷ p.ctls;
  },
)

update_at-updated :
    (i : Index) (c : Channel) (p : Poller)
    → c.index ≡ i
    → lookup c.fd p.channels ≡ map_entry i c.id
    → update_at i c p ≡ ok (updated i c p)
unfolding update_at updated
update_at-updated new c p e h = ground arith
update_at-updated added c p e h = ground arith
update_at-updated deleted c p e h = ground arith

pub update_channel-updated :
    (c : Channel) (p : Poller) → IsTracked c p → update_channel c p ≡ ok (updated c.index c p)
unfolding update_channel
update_channel-updated c p h = update_at-updated c.index c p refl h

updated-map :
    (i : Index) (c : Channel) (p : Poller) (j : ℕ)
    → lookup c.fd p.channels ≡ map_entry i c.id
    → lookup j (updated i c p).1.channels ≡ (if c.fd == j then some c.id else lookup j p.channels)
unfolding updated
updated-map new c p j h = lookup-insert c.fd j c.id p.channels
updated-map added c p j h = ground (arith, h)
updated-map deleted c p j h = ground (arith, h)

pub updated-IsTracked :
    (i : Index) (c : Channel) (p : Poller)
    → lookup c.fd p.channels ≡ map_entry i c.id
    → IsTracked (updated i c p).0 (updated i c p).1
unfolding updated
updated-IsTracked i c p h = ground (arith, updated-map i c p c.fd h, is_none_event c)

pub updated-SameElsewhere :
    (i : Index) (c : Channel) (p : Poller)
    → lookup c.fd p.channels ≡ map_entry i c.id
    → SameElsewhere c.fd p (updated i c p).1
updated-SameElsewhere i c p h j ne = ground (arith, updated-map i c p j h, ne)

-- An update of a channel whose descriptor the map holds as the channel's index says meets no failed
-- assertion. It leaves the channel's descriptor mapped as its new index says and every other
-- descriptor mapped as before, and changes nothing of the channel but the index.
pub update_channel-IsTracked :
    (c : Channel) (p : Poller)
    → IsTracked c p
    → Returns
        (λ r.
          IsTracked r.0 r.1
          × SameElsewhere c.fd p r.1
          × (r.0 ≡ record c { index = next_index c.index (is_none_event c) }))
        (update_channel c p)
unfolding updated
update_channel-IsTracked c p h =
    rw (update_channel-updated c p h)
      (updated-IsTracked c.index c p h, updated-SameElsewhere c.index c p h, refl)

-- A removal that meets no failed assertion.
unfoldable pub removed : Index → Channel → Poller → Channel × Poller
unfolding is_added
removed i c p = (
  record c { index = new },
  record p {
    channels = erase c.fd p.channels;
    ctls =
        if is_added i
        then record { op = ctl_del; fd = c.fd; events = c.events; ptr = c.id } ∷ p.ctls
        else p.ctls;
  },
)

pub remove_channel-removed :
    (c : Channel) (p : Poller)
    → IsTracked c p
    → is_none_event c ≡ true
    → c.index ≢ new
    → remove_channel c p ≡ ok (removed c.index c p)
unfolding remove_channel removed
remove_channel-removed c p h e ne = ground (arith, h, e, ne)

removed-map :
    (i : Index) (c : Channel) (p : Poller) (j : ℕ)
    → lookup j (removed i c p).1.channels ≡ (if c.fd == j then none else lookup j p.channels)
unfolding removed
removed-map i c p j = lookup-erase c.fd j p.channels

-- A removal of a tracked channel that wants nothing and has been registered meets no failed assertion,
-- makes the channel new and its descriptor free, and keeps every other descriptor as it was.
pub remove_channel-frees :
    (c : Channel) (p : Poller)
    → IsTracked c p
    → is_none_event c ≡ true
    → c.index ≢ new
    → Returns
        (λ r.
          (lookup c.fd r.1.channels ≡ none)
          × SameElsewhere c.fd p r.1
          × (r.0 ≡ record c { index = new }))
        (remove_channel c p)
unfolding removed
remove_channel-frees c p h e ne = rw (remove_channel-removed c p h e ne) (
  ground (arith, removed-map c.index c p c.fd),
  λ j other. ground (arith, removed-map c.index c p j, other),
  refl,
)

-- A removal stops at an assertion if the channel still wants an event or was never registered.
pub remove_channel-refuses :
    (c : Channel) (p : Poller)
    → IsTracked c p
    → (is_none_event c ≡ false) ⊎ (c.index ≡ new)
    → remove_channel c p ≡ fault assert_failed
unfolding remove_channel
remove_channel-refuses c p h e = ground (arith, h, e)
