-- ===== src/TimerQueue/Invariant.antt =====
-- The two sets of SrcFile/TimerQueue.c against the heap: what ties them together, and how each change
-- of the sets and of the heap keeps it.
use simple_net_base.Prelude.{ℕ, ◌<◌, ◌≡◌, subst, false, List, some, arith, length, lookup}
use simple_net_base.Prelude.Int.{ℤ, eq_of_parts}
use simple_net_base.StdSet.{StrictOrder, In, IsSorted}
use simple_net_base.TimerQueue.{Timer, Entry, ActiveTimer, entry_lt, active_lt, uintptr_max}

entry_tri : (a b : Entry) → entry_lt a b ≡ false → entry_lt b a ≡ false → a ≡ b
unfolding entry_lt
entry_tri (e, p) (f, q) h g =
    let k : e ≡ f = eq_of_parts e f (ground (arith, h, g)) in
    let l : p ≡ q = ground (arith, h, g, k) in cc

pub entry_order : StrictOrder entry_lt
unfolding entry_lt
entry_order = record {
  irrefl = λ (e, p). ground arith;
  trans = λ (e, p) (f, q) (g, r) h k. ground arith;
  tri = entry_tri;
}

active_tri : (a b : ActiveTimer) → active_lt a b ≡ false → active_lt b a ≡ false → a ≡ b
unfolding active_lt
active_tri (e, p) (f, q) h g =
    let k : e ≡ f = ground (arith, h, g) in let l : p ≡ q = ground (arith, h, g, k) in cc

pub active_order : StrictOrder active_lt
unfolding active_lt
active_order = record {
  irrefl = λ (e, p). ground arith;
  trans = λ (e, p) (f, q) (g, r) h k. ground arith;
  tri = active_tri;
}

abbrev pub Heap : Type 0
Heap = List (ℕ × Timer)

-- No active timer has the address.
abbrev pub IsIdle : ℕ → List ActiveTimer → Type 0
IsIdle p act = (s : ℕ) → In (p, s) act → ⊥

-- Every entry is that of a timer on the heap with its expiration, which is active, every active timer
-- has its entry, and the timers that `Out` names are on the heap and in neither set.
pub record Inv (Out : ℕ → Type 0) (all : List Entry) (act : List ActiveTimer) (h : Heap)
    : Type 0 where
  pub sorted : IsSorted entry_lt all
  pub active_sorted : IsSorted active_lt act
  pub sizes : length all ≡ length act
  pub queued :
      (e : ℤ) (p : ℕ)
      → In (e, p) all
      → (t : Timer) × (lookup p h ≡ some t) × (t.expiration ≡ e) × In (p, t.sequence) act
  pub active :
      (p s : ℕ)
      → In (p, s) act
      → (t : Timer) × (lookup p h ≡ some t) × (t.sequence ≡ s) × In (t.expiration, p) all
  pub outside : (p : ℕ) → Out p → (t : Timer) × (lookup p h ≡ some t) × IsIdle p act
  pub low : (p : ℕ) (t : Timer) → lookup p h ≡ some t → p < uintptr_max

module _ {Out : ℕ → Type 0} {all : List Entry} {act : List ActiveTimer} {h : Heap}
    (v : Inv Out all act h) where
  pub queued_at :
      (e : ℤ) (p : ℕ) (t : Timer)
      → In (e, p) all
      → lookup p h ≡ some t
      → (e ≡ t.expiration) × In (p, t.sequence) act
  queued_at e p t i l =
      let (u, k, x, j) = v.queued e p i in
      let same : u ≡ t = cc in (cc, subst (λ w. In (p, w.sequence) act) same j)

  pub active_at :
      (p s : ℕ) (t : Timer)
      → In (p, s) act
      → lookup p h ≡ some t
      → (s ≡ t.sequence) × In (t.expiration, p) all
  active_at p s t i l =
      let (u, k, x, j) = v.active p s i in
      let same : u ≡ t = cc in (cc, subst (λ w. In (w.expiration, p) all) same j)

  -- An idle address has no entry.
  pub idle_entry : (e : ℤ) (p : ℕ) → IsIdle p act → In (e, p) all → ⊥
  idle_entry e p idle i = let (u, k, x, j) = v.queued e p i in idle u.sequence j

  pub Inv-weaken : {Other : ℕ → Type 0} → ((p : ℕ) → Other p → Out p) → Inv Other all act h
  Inv-weaken f = record {
    sorted = v.sorted;
    active_sorted = v.active_sorted;
    sizes = v.sizes;
    queued = v.queued;
    active = v.active;
    outside = λ p o. v.outside p (f p o);
    low = v.low;
  }
