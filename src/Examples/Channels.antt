-- ===== src/Examples/Channels.antt =====
-- Channels of SrcFile/Channel.c and pollers of SrcFile/EPollPoller.c, with an epoll that keeps the
-- promises of its manual.
use simple_net_base.Prelude.{
  ℕ, ◌≡◌, ◌≢◌, ◌∙◌, refl, sym, ap, Bool-cases, inl, ==_iff, true, false, List, [], ◌∷◌, Option,
  none, some, Returns, inr, arith, ◌==◌, if◌then◌else◌, lookup,
}
use simple_net_base.Channel
use simple_net_base.Channel.{Channel, new, added, Registered, handle_event}
use simple_net_base.Channel.Printing.{words_of, events_text, revents_to_string}
use simple_net_base.Prelude.Decimal.{codes, decimal}
use simple_net_base.Poller.{
  Poller, Store, Ready, CtlOp, ctl_add, ctl_mod, ctl_del, Ctl, update_channel, poll, events_ready,
}
use simple_net_base.Poller.Wait.{delivered, poll-delivers}
use simple_net_base.Poller.Kernel.{Epoll, IsWatched, effective, update_channel-effective}

-- A channel that wants to read and has been added, and an idle one.
abbrev reader : Channel
reader = record {
  id = 100;
  fd = 7;
  events = 3;
  revents = 0;
  index = added;
  tied = false;
  event_handling = false;
  added_to_loop = true;
}

abbrev idle : Channel
idle = record {
  id = 100;
  fd = 7;
  events = 0;
  revents = 0;
  index = added;
  tied = false;
  event_handling = false;
  added_to_loop = true;
}

abbrev fresh : Channel
fresh = record {
  id = 200;
  fd = 9;
  events = 0;
  revents = 0;
  index = new;
  tied = false;
  event_handling = false;
  added_to_loop = false;
}

abbrev added_call : Ctl
added_call = record { op = ctl_add; fd = 7; events = 3; ptr = 100 }

abbrev one : Poller
one = record { channels = (7, 100) ∷ []; ctls = added_call ∷ []; events_size = 2 }

-- What epoll does on each call: an addition of a watched descriptor and a change or a removal of one
-- that is not watched fail.
abbrev ctl_entry : CtlOp → ℕ → Option ℕ → Option ℕ
ctl_entry ctl_add events none = some events
ctl_entry ctl_add events (some m) = some m
ctl_entry ctl_mod events none = none
ctl_entry ctl_mod events (some m) = some events
ctl_entry ctl_del events o = none

abbrev watched : List Ctl → ℕ → Option ℕ
watched [] j = none
watched (c ∷ cs) j =
    let before = watched cs j in if c.fd == j then ctl_entry c.op c.events before else before

entry_add : (o : CtlOp) (e : ℕ) (m : Option ℕ) → o ≡ ctl_add → m ≡ none → ctl_entry o e m ≡ some e
entry_add ctl_add e none h g = refl
entry_add ctl_add e (some a) h g = cc
entry_add ctl_mod e m h g = cc
entry_add ctl_del e m h g = cc

entry_mod : (o : CtlOp) (e : ℕ) (m : Option ℕ) → o ≡ ctl_mod → m ≢ none → ctl_entry o e m ≡ some e
entry_mod ctl_mod e none h g = absurd (g refl)
entry_mod ctl_mod e (some a) h g = refl
entry_mod ctl_add e m h g = cc
entry_mod ctl_del e m h g = cc

entry_del : (o : CtlOp) (e : ℕ) (m : Option ℕ) → o ≡ ctl_del → ctl_entry o e m ≡ none
entry_del ctl_del e m h = refl
entry_del ctl_add e m h = cc
entry_del ctl_mod e m h = cc

-- A new entry for the descriptor of a call shows at it alone.
shown :
    (c : Ctl) (cs : List Ctl) (j : ℕ) (o : Option ℕ)
    → ((m : Option ℕ) → m ≡ watched cs c.fd → ctl_entry c.op c.events m ≡ o)
    → watched (c ∷ cs) j ≡ (if c.fd == j then o else watched cs j)
shown c cs j o h = elim (Bool-cases (c.fd == j)) [
  | inl same ↦ rw same (h (watched cs j) (ap (watched cs) (sym ((==_iff c.fd j).0 same))))
  | inr other ↦ rw other
]

abbrev epoll : Epoll
epoll = record {
  interest = watched;
  at_first = λ fd. refl;
  after_add = λ c cs j e h. shown c cs j _ λ m g. entry_add c.op c.events m e (g ∙ h);
  after_mod = λ c cs j e h. shown c cs j _ λ m g. entry_mod c.op c.events m e (λ n. h (sym g ∙ n));
  after_del = λ c cs j e h. shown c cs j _ λ m g. entry_del c.op c.events m e;
}

abbrev noisy : Channel
noisy = record reader { revents = 20; tied = true }

noisy_text : revents_to_string noisy ≡ codes "7: OUT HUP "
unfolding revents_to_string events_text words_of decimal Channel.has
noisy_text = refl

update_channel-effective_example :
    Returns
      (λ r.
        (effective epoll r.1 7 ≡ 0)
        × IsWatched epoll r.0 r.1
        × ((j : ℕ) → j ≢ 7 → epoll.interest r.1.ctls j ≡ epoll.interest one.ctls j))
      (update_channel idle one)
unfolding lookup
update_channel-effective_example = update_channel-effective epoll idle one refl refl

abbrev store : Store
store = (100, reader) ∷ []

abbrev batch : List Ready
batch = record { ptr = 100; events = 1 } ∷ record { ptr = 100; events = 4 } ∷ []

-- Two entries for the same channel.
abbrev twice : List Ready
twice = record { ptr = 100; events = 1 } ∷ record { ptr = 100; events = 4 } ∷ []

poll-delivers_example :
    Returns
      (λ (q, t, active).
        (active ≡ 100 ∷ 100 ∷ [])
        × ((ptr : ℕ) → lookup ptr t ≡ delivered ptr twice (lookup ptr ((100, reader) ∷ [])))
        × (q ≡ record one { events_size = 4 }))
      (poll (events_ready twice) one ((100, reader) ∷ []))
unfolding lookup
poll-delivers_example =
    poll-delivers (record { ptr = 100; events = 1 }) (record { ptr = 100; events = 4 } ∷ []) one
      ((100, reader) ∷ []) ((reader, refl, refl), ((reader, refl, refl), tt)) (omega arith)
