-- ===== src/Poller/Kernel.antt =====
-- The interest set that the `epoll_ctl` calls of SrcFile/EPollPoller.c leave in the kernel. epoll is
-- not part of the repository: what its manual promises of a call that does not fail for want of
-- resources is an interface.
use simple_net_base.Prelude.{
  ℕ, ◌≡◌, ◌≢◌, refl, Bool, true, false, List, [], ◌∷◌, Option, none, some, arith, Returns, ◌==◌,
  if◌then◌else◌,
}
use simple_net_base.Channel.{Channel, Index, new, added, deleted, is_none_event}
use simple_net_base.Poller.{Poller, Ctl, ctl_add, ctl_mod, ctl_del, update_channel, remove_channel}
use simple_net_base.Poller.Registration.{
  IsTracked, next_index, next_op, updated, update_channel-updated, removed, remove_channel-removed,
}

-- `interest calls fd` is the event mask that epoll watches `fd` for after the calls, the latest first,
-- if it watches `fd` at all.
pub record Epoll : Type 0 where
  pub interest : List Ctl → ℕ → Option ℕ
  pub at_first : (fd : ℕ) → interest [] fd ≡ none
  pub after_add :
      (c : Ctl) (cs : List Ctl) (j : ℕ)
      → c.op ≡ ctl_add
      → interest cs c.fd ≡ none
      → interest (c ∷ cs) j ≡ (if c.fd == j then some c.events else interest cs j)
  pub after_mod :
      (c : Ctl) (cs : List Ctl) (j : ℕ)
      → c.op ≡ ctl_mod
      → interest cs c.fd ≢ none
      → interest (c ∷ cs) j ≡ (if c.fd == j then some c.events else interest cs j)
  pub after_del :
      (c : Ctl) (cs : List Ctl) (j : ℕ)
      → c.op ≡ ctl_del
      → interest cs c.fd ≢ none
      → interest (c ∷ cs) j ≡ (if c.fd == j then none else interest cs j)

-- epoll watches the descriptors of added channels only.
abbrev pub is_watched : Index → Bool
is_watched added = true
is_watched new = false
is_watched deleted = false

abbrev is_some {ℓ} : {A : Type ℓ} → Option A → Bool
is_some none = false
is_some (some a) = true

module _ (k : Epoll) where
  abbrev pub IsWatched : Channel → Poller → Type 0
  IsWatched c p = is_some (k.interest p.ctls c.fd) ≡ is_watched c.index

  -- The mask for which epoll reports events of the channel's descriptor, 0 if it does not watch it.
  abbrev pub effective : Poller → ℕ → ℕ
  effective p fd = elim (k.interest p.ctls fd) [ none ↦ 0 | some m ↦ m ]

  none_of : (o : Option ℕ) → is_some o ≡ false → o ≡ none
  none_of none h = refl
  none_of (some a) h = cc

  not_none : (o : Option ℕ) → is_some o ≡ true → o ≢ none
  not_none none h e = cc
  not_none (some a) h e = cc

  ctl-interest :
      (i : Index) (idle : Bool) (fd events ptr : ℕ) (cs : List Ctl) (j : ℕ)
      → is_some (k.interest cs fd) ≡ is_watched i
      → k.interest (record { op = next_op i idle; fd = fd; events = events; ptr = ptr } ∷ cs) j ≡ (
          if fd == j
          then (if is_watched (next_index i idle) then some events else none)
          else k.interest cs j)
  ctl-interest new idle fd events ptr cs j h = k.after_add _ cs j refl (none_of _ h)
  ctl-interest deleted idle fd events ptr cs j h = k.after_add _ cs j refl (none_of _ h)
  ctl-interest added true fd events ptr cs j h = k.after_del _ cs j refl (not_none _ h)
  ctl-interest added false fd events ptr cs j h = k.after_mod _ cs j refl (not_none _ h)

  updated-interest :
      (i : Index) (c : Channel) (p : Poller) (j : ℕ)
      → is_some (k.interest p.ctls c.fd) ≡ is_watched i
      → k.interest (updated i c p).1.ctls j ≡ (
          if c.fd == j
          then (if is_watched (next_index i (is_none_event c)) then some c.events else none)
          else k.interest p.ctls j)
  unfolding updated
  updated-interest i c p j h = ctl-interest i (is_none_event c) c.fd c.events c.id p.ctls j h

  updated-effective :
      (i : Index) (c : Channel) (p : Poller)
      → is_some (k.interest p.ctls c.fd) ≡ is_watched i
      → effective (updated i c p).1 c.fd ≡ c.events
  unfolding is_none_event
  updated-effective i c p h = ground (arith, updated-interest i c p c.fd h, i, c.events)

  -- Under epoll as documented: an update of a tracked channel that epoll watches as the index says
  -- leaves epoll reporting exactly the events that the channel asks for, with the channel again
  -- watched as its new index says, and every other descriptor watched as before.
  pub update_channel-effective :
      (c : Channel) (p : Poller)
      → IsTracked c p
      → IsWatched c p
      → Returns
          (λ r.
            (effective r.1 c.fd ≡ c.events)
            × IsWatched r.0 r.1
            × ((j : ℕ) → j ≢ c.fd → k.interest r.1.ctls j ≡ k.interest p.ctls j))
          (update_channel c p)
  unfolding updated
  update_channel-effective c p t h = rw (update_channel-updated c p t) (
    updated-effective c.index c p h,
    ground (arith, updated-interest c.index c p c.fd h),
    λ j other. ground (arith, updated-interest c.index c p j h, other),
  )

  removed-interest :
      (i : Index) (c : Channel) (p : Poller) (j : ℕ)
      → is_some (k.interest p.ctls c.fd) ≡ is_watched i
      → k.interest (removed i c p).1.ctls j ≡ (if c.fd == j then none else k.interest p.ctls j)
  unfolding removed
  removed-interest added c p j h = k.after_del _ p.ctls j refl (not_none _ h)
  removed-interest new c p j h = ground (arith, none_of _ h)
  removed-interest deleted c p j h = ground (arith, none_of _ h)

  -- Under epoll as documented: a removal of a tracked channel that wants nothing and has been
  -- registered leaves its descriptor unwatched and every other descriptor watched as before.
  pub remove_channel-unwatched :
      (c : Channel) (p : Poller)
      → IsTracked c p
      → IsWatched c p
      → is_none_event c ≡ true
      → c.index ≢ new
      → Returns
          (λ r.
            (k.interest r.1.ctls c.fd ≡ none)
            × ((j : ℕ) → j ≢ c.fd → k.interest r.1.ctls j ≡ k.interest p.ctls j))
          (remove_channel c p)
  unfolding removed
  remove_channel-unwatched c p t h e ne = rw (remove_channel-removed c p t e ne) (
    ground (arith, removed-interest c.index c p c.fd h),
    λ j other. ground (arith, removed-interest c.index c p j h, other),
  )
