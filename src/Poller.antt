-- ===== src/Poller.antt =====
-- SrcFile/EPollPoller.c and SrcFile/Poller.h: the map from descriptors to channels, and the
-- `epoll_ctl` calls that keep the kernel's interest set in step with it.
use simple_net_base.Prelude.{
  ℕ, ◌+◌, ◌*◌, Bool, true, false, not, List, [], ◌∷◌, ◌++◌, Option, none, some, ◌==◌, leb,
  if◌then◌else◌, length, Result, ok, fault, dangling, ◌>>=◌, ◌>>◌, assert, lookup, insert, erase,
  holds, is_none, map,
}
use simple_net_base.Channel
use simple_net_base.Channel.{Channel, Index, new, added, deleted, is_none_event, set_revents}
pub mod Registration
pub mod Kernel
pub mod Wait

pub data CtlOp : Type 0 where
  ctl_add ctl_mod ctl_del : CtlOp

-- A call of `epoll_ctl`: the operation, the descriptor, and the two fields of the event.
pub record Ctl : Type 0 where
  pub op : CtlOp
  pub fd : ℕ
  pub events : ℕ
  pub ptr : ℕ

pub record Poller : Type 0 where
  pub channels : List (ℕ × ℕ)  -- channels_, from the descriptor to the channel's address
  pub ctls : List Ctl  -- the calls of epoll_ctl, the latest first
  pub events_size : ℕ  -- events_.size()

-- `update`: its only effect is the call of `epoll_ctl`; a failure of that call is ignored.
unfoldable pub update : CtlOp → Channel → Poller → Poller
update op c p = record p {
  ctls = record { op = op; fd = c.fd; events = c.events; ptr = c.id } ∷ p.ctls;
}

update_new : Channel → Poller → Result (Channel × Poller)
unfolding update Channel.set_index
update_new c p = do
  assert (is_none (lookup c.fd p.channels))
  let c' = Channel.set_index c added
  ok (c', update ctl_add c' (record p { channels = insert c.fd c.id p.channels }))

update_deleted : Channel → Poller → Result (Channel × Poller)
unfolding update Channel.set_index
update_deleted c p = do
  assert (not (is_none (lookup c.fd p.channels)))
  assert (holds c.fd c.id p.channels)
  let c' = Channel.set_index c added
  ok (c', update ctl_add c' p)

update_added : Channel → Poller → Result (Channel × Poller)
unfolding update is_none_event Channel.set_index
update_added c p = do
  assert (not (is_none (lookup c.fd p.channels)))
  assert (holds c.fd c.id p.channels)
  if is_none_event c
      then ok (Channel.set_index c deleted, update ctl_del c p)
      else ok (c, update ctl_mod c p)

unfoldable pub update_at : Index → Channel → Poller → Result (Channel × Poller)
unfolding update_new update_deleted update_added
update_at new c p = update_new c p
update_at deleted c p = update_deleted c p
update_at added c p = update_added c p

unfoldable pub update_channel : Channel → Poller → Result (Channel × Poller)
unfolding update_at
update_channel c p = update_at c.index c p

unfoldable pub is_registered : Index → Bool
is_registered new = false
is_registered _ = true

unfoldable pub is_added : Index → Bool
is_added added = true
is_added _ = false

unfoldable pub remove_channel : Channel → Poller → Result (Channel × Poller)
unfolding update is_none_event is_registered is_added Channel.set_index
remove_channel c p = do
  assert (not (is_none (lookup c.fd p.channels)))
  assert (holds c.fd c.id p.channels)
  assert (is_none_event c)
  assert (is_registered c.index)
  let p' = record p { channels = erase c.fd p.channels }
  ok (Channel.set_index c new, if is_added c.index then update ctl_del c p' else p')

-- The channels that exist, by address.
abbrev pub Store : Type 0
Store = List (ℕ × Channel)

-- `*ptr`.
abbrev pub deref : ℕ → Store → Result Channel
deref ptr s = elim (lookup ptr s) [ none ↦ fault dangling | some c ↦ ok c ]

-- An entry of `events_` that `epoll_wait` filled in.
pub record Ready : Type 0 where
  pub ptr : ℕ
  pub events : ℕ

-- The loop of `fillActiveChannels`, with its assertions; the result is the extended store and what
-- was pushed on `activeChannels`.
unfoldable pub fill_from : List Ready → List (ℕ × ℕ) → Store → Result (Store × List ℕ)
unfolding set_revents
fill_from [] m s = ok (s, [])
fill_from (r ∷ rs) m s = do
  c ← deref r.ptr s
  assert (not (is_none (lookup c.fd m)))
  assert (holds c.fd r.ptr m)
  (s', active) ← fill_from rs m (insert r.ptr (set_revents c r.events) s)
  ok (s', r.ptr ∷ active)

unfoldable pub fill_active_channels : List Ready → Poller → Store → Result (Store × List ℕ)
fill_active_channels ready p s = do
  assert (leb (length ready) p.events_size)
  fill_from ready p.channels s

-- What `epoll_wait` returned: a failure, or the events (none when it timed out).
pub data WaitResult : Type 0 where
  wait_failed : WaitResult
  events_ready : List Ready → WaitResult

-- A failure is only logged.
unfoldable pub poll : WaitResult → Poller → Store → Result (Poller × Store × List ℕ)
poll wait_failed p s = ok (p, s, [])
poll (events_ready []) p s = ok (p, s, [])
poll (events_ready (r ∷ rs)) p s = do
  (s', active) ← fill_active_channels (r ∷ rs) p s
  let size = p.events_size
  ok (record p { events_size = if length (r ∷ rs) == size then size * 2 else size }, s', active)
