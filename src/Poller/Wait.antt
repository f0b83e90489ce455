-- ===== src/Poller/Wait.antt =====
-- `poll` and `fillActiveChannels` of SrcFile/EPollPoller.c: from the events of the kernel to the list
-- of active channels.
use simple_net_base.Prelude.{
  ℕ, ◌*◌, ◌≤◌, ◌≡◌, refl, sym, List, [], ◌∷◌, Option, none, some, arith, ok, Returns, ◌==◌,
  if◌then◌else◌, lookup, insert, lookup-insert, map, length, le→leb, Option-cases, inl, inr,
}
use simple_net_base.Channel.{Channel, set_revents}
use simple_net_base.Poller.{
  Poller, Store, Ready, events_ready, fill_from, fill_active_channels, poll,
}

-- Every pointer that the kernel hands back is that of a channel which exists and stands in the map
-- under its descriptor.
abbrev pub IsMapped : List (ℕ × ℕ) → Store → ℕ → Type 0
IsMapped m s ptr = (c : Channel) × (lookup ptr s ≡ some c) × (lookup c.fd m ≡ some ptr)

abbrev pub AllMapped : List (ℕ × ℕ) → Store → List Ready → Type 0
AllMapped m s [] = Unit {0}
AllMapped m s (r ∷ rs) = IsMapped m s r.ptr × AllMapped m s rs

deliver : Ready → Store → Store
deliver r s = elim (lookup r.ptr s) [ none ↦ s | some c ↦ insert r.ptr (set_revents c r.events) s ]

deliver_all : List Ready → Store → Store
deliver_all [] s = s
deliver_all (r ∷ rs) s = deliver_all rs (deliver r s)

-- What a channel's `revents_` is after a list of entries: the events of the last one for it.
abbrev pub last_events : ℕ → ℕ → List Ready → ℕ
last_events ptr revents [] = revents
last_events ptr revents (r ∷ rs) = last_events ptr (if r.ptr == ptr then r.events else revents) rs

abbrev pub delivered : ℕ → List Ready → Option Channel → Option Channel
delivered ptr ready none = none
delivered ptr ready (some c) = some (set_revents c (last_events ptr c.revents ready))

lookup-deliver :
    (r : Ready) (s : Store) (ptr : ℕ)
    → lookup ptr (deliver r s) ≡ delivered ptr (r ∷ []) (lookup ptr s)
unfolding deliver set_revents
lookup-deliver r s ptr = elim (Option-cases (lookup r.ptr s)) [
  | inl e ↦ ground (arith, e)
  | inr (c, e) ↦ ground (arith, lookup-insert r.ptr ptr (set_revents c r.events) s, e)
]

delivered-nil : (ptr : ℕ) (o : Option Channel) → delivered ptr [] o ≡ o
unfolding set_revents
delivered-nil ptr none = refl
delivered-nil ptr (some c) = refl

delivered-cons :
    (ptr : ℕ) (r : Ready) (rs : List Ready) (o : Option Channel)
    → delivered ptr rs (delivered ptr (r ∷ []) o) ≡ delivered ptr (r ∷ rs) o
unfolding set_revents
delivered-cons ptr r rs none = refl
delivered-cons ptr r rs (some c) = refl

lookup-deliver_all :
    (rs : List Ready) (s : Store) (ptr : ℕ)
    → lookup ptr (deliver_all rs s) ≡ delivered ptr rs (lookup ptr s)
unfolding deliver_all set_revents
lookup-deliver_all [] s ptr = sym (delivered-nil ptr (lookup ptr s))
lookup-deliver_all (r ∷ rs) s ptr =
    rw (lookup-deliver_all rs (deliver r s) ptr, lookup-deliver r s ptr)
      (delivered-cons ptr r rs (lookup ptr s))

IsMapped-deliver :
    (m : List (ℕ × ℕ)) (s : Store) (r : Ready) (ptr : ℕ)
    → IsMapped m s ptr
    → IsMapped m (deliver r s) ptr
unfolding set_revents
IsMapped-deliver m s r ptr (c, e, g) =
    (set_revents c (last_events ptr c.revents (r ∷ [])), ground (arith, lookup-deliver r s ptr), g)

AllMapped-deliver :
    (m : List (ℕ × ℕ)) (s : Store) (r : Ready) (rs : List Ready)
    → AllMapped m s rs
    → AllMapped m (deliver r s) rs
AllMapped-deliver m s r [] h = tt
AllMapped-deliver m s r (x ∷ xs) h =
    (IsMapped-deliver m s r x.ptr h.0, AllMapped-deliver m s r xs h.1)

fill_from-deliver_all :
    (rs : List Ready) (m : List (ℕ × ℕ)) (s : Store)
    → AllMapped m s rs
    → fill_from rs m s ≡ ok (deliver_all rs s, map (λ r. r.ptr) rs)
unfolding fill_from deliver_all deliver
fill_from-deliver_all [] m s h = refl
fill_from-deliver_all (r ∷ rs) m s ((c, e, g), h) =
    ground (arith, e, g, fill_from-deliver_all rs m (deliver r s) (AllMapped-deliver m s r rs h))

-- When every pointer of a non-empty batch of events that fits the event list is that of a mapped
-- channel, `poll` meets no failed assertion; the active channels are those of the batch in order, each
-- existing channel has the events of its last entry as returned events and is otherwise unchanged, and
-- the event list doubles if and only if the batch filled it.
pub poll-delivers :
    (r : Ready) (rs : List Ready) (p : Poller) (s : Store)
    → AllMapped p.channels s (r ∷ rs)
    → length (r ∷ rs) ≤ p.events_size
    → Returns
        (λ (q, t, active).
          (active ≡ map (λ x. x.ptr) (r ∷ rs))
          × ((ptr : ℕ) → lookup ptr t ≡ delivered ptr (r ∷ rs) (lookup ptr s))
          × (q ≡ record p {
            events_size =
                if length (r ∷ rs) == p.events_size then p.events_size * 2 else p.events_size;
          }))
        (poll (events_ready (r ∷ rs)) p s)
unfolding poll fill_active_channels
poll-delivers r rs p s h fits =
    rw (le→leb (length (r ∷ rs)) p.events_size fits, fill_from-deliver_all (r ∷ rs) p.channels s h)
      (refl, λ ptr. lookup-deliver_all (r ∷ rs) s ptr, refl)
