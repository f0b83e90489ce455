-- ===== src/TimerQueue/Ending.antt =====
-- The destructor of SrcFile/TimerQueue.c deletes the timers that it still has.
use simple_net_base.Prelude.{
  ℕ, ◌≡◌, refl, Bool, false, ◌||◌, List, [], ◌∷◌, none, arith, ◌==◌, if◌then◌else◌, inl, inr,
  lookup, lookup-erase, Returns, Returns-mono,
}
use simple_net_base.Prelude.Assoc
use simple_net_base.TimerQueue.{Entry, ActiveTimer, delete_all}
use simple_net_base.TimerQueue.Invariant.{Heap, Inv}
use simple_net_base.TimerQueue.Idle.{Inv-retired, Inv-deleted}
use simple_net_base.TimerQueue.Operations.{timer_at-some}

abbrev pub has_entry : ℕ → List Entry → Bool
has_entry p [] = false
has_entry p ((e, q) ∷ es) = q == p || has_entry p es

-- The entries' timers are gone, and no other.
abbrev pub Freed : List Entry → Heap → Heap → Type 0
Freed es h h' = (p : ℕ) → lookup p h' ≡ (if has_entry p es then none else lookup p h)

-- In a state with the invariant, the destructor's loop over the entries deletes every timer that has one,
-- once, and no other timer.
pub delete_all-Freed :
    (es : List Entry) {Out : ℕ → Type 0} {act : List ActiveTimer} {h : Heap}
    → Inv Out es act h
    → Returns (Freed es h) (delete_all es h)
unfolding delete_all
delete_all-Freed [] v = λ p. refl
delete_all-Freed ((e, p) ∷ es) {h = h} v =
    let (t, l, x, j) = v.queued e p (inl refl) in
    let out = Inv-retired v p t refl l in
    let (u, k, idle) = out.outside p (inr refl) in
    rw (timer_at-some p h t l) (
      Returns-mono (Freed es (Assoc.erase p h)) (Freed ((e, p) ∷ es) h)
        (delete_all es (Assoc.erase p h)) (delete_all-Freed es (Inv-deleted out p t idle))
        λ h' f q. ground (arith, f q, lookup-erase p q h))
