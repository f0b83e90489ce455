-- ===== src/TimerQueue/Expiry.antt =====
-- `getExpired` of SrcFile/TimerQueue.c: it takes the timers that are due, and no others.
use simple_net_base.Prelude.{
  ℕ, ◌<◌, ◌≡◌, refl, sym, ap, subst, true, false, ◌⊎◌, inl, inr, List, [], ◌∷◌, ◌++◌, arith,
  Returns, Returns-bind, Returns-mono,
}
use simple_net_base.Prelude.Int.{ℤ, ltb_ℤ, ◌≤ℤ◌}
use simple_net_base.StdSet
use simple_net_base.StdSet.{In, IsSorted, contains-In, before, from_bound, before-append_from}
use simple_net_base.StdSet.Laws.{before-lt, from_bound-ge}
use simple_net_base.TimerQueue.{
  Entry, ActiveTimer, entry_lt, active_lt, uintptr_max, TimerQueue, retire, get_expired,
  is_earliest,
}
use simple_net_base.TimerQueue.Invariant.{
  Heap, Inv, entry_order, active_order, queued_at, Inv-weaken,
}
use simple_net_base.TimerQueue.Idle.{Inv-retired}
use simple_net_base.TimerQueue.Operations.{Owns, sizes-same, timer_at-some}

abbrev pub addresses : List Entry → List ℕ
addresses [] = []
addresses ((e, p) ∷ es) = p ∷ addresses es

-- No address occurs twice.
abbrev pub AllDistinct : List ℕ → Type 0
AllDistinct [] = Unit {0}
AllDistinct (p ∷ ps) = (In p ps → ⊥) × AllDistinct ps

In-append : {A : Type 0} (a : A) (xs ys : List A) → In a ys → In a (xs ++ ys)
In-append a [] ys i = i
In-append a (x ∷ xs) ys i = inr (In-append a xs ys i)

pub append-In : {A : Type 0} (a : A) (xs ys : List A) → In a xs → In a (xs ++ ys)
append-In a [] ys i = elim i [ ]
append-In a (x ∷ xs) ys (inl e) = inl e
append-In a (x ∷ xs) ys (inr i) = inr (append-In a xs ys i)

pub In-addresses : (p : ℕ) (es : List Entry) → In p (addresses es) → (e : ℤ) × In (e, p) es
In-addresses p [] i = elim i [ ]
In-addresses p ((e, q) ∷ es) (inl same) = (e, inl (ap (λ x. (e, x)) same))
In-addresses p ((e, q) ∷ es) (inr i) = let (f, j) = In-addresses p es i in (f, inr j)

module _ (h : Heap) where
  pub retire-Inv :
      (due : List Entry) {Out : ℕ → Type 0} (rest : List Entry) (act : List ActiveTimer)
      → Inv Out (due ++ rest) act h
      → Returns (λ a. Inv (λ x. Out x ⊎ In x (addresses due)) rest a h) (retire due h act)
  unfolding retire
  retire-Inv [] rest act v = Inv-weaken v (λ p o. elim o [ inl w ↦ w | inr i ↦ elim i [ ] ])
  retire-Inv ((e, p) ∷ due) {Out} rest act v =
      let (t, l, x, i) = v.queued e p (inl refl) in
      rw (timer_at-some p h t l, contains-In active_lt active_order _ act v.active_sorted i)
        (Returns-mono _ _ (retire due h (StdSet.erase active_lt (p, t.sequence) act))
          (retire-Inv due rest _ (Inv-retired v p t refl l))
          λ a w. Inv-weaken w λ y o. elim o [
            | inl w ↦ inl (inl w)
            | inr (inl same) ↦ inl (inr (sym same))
            | inr (inr i) ↦ inr i
          ])

  distinct :
      (due : List Entry) {Out : ℕ → Type 0} (rest : List Entry) (act : List ActiveTimer)
      → Inv Out (due ++ rest) act h
      → AllDistinct (addresses due)
  distinct [] rest act v = tt
  distinct ((e, p) ∷ due) rest act v =
      let (t, l, x, i) = v.queued e p (inl refl) in
      (
        (λ j.
            let (f, k) = In-addresses p due j in
            let old : In (f, p) (due ++ rest) = append-In (f, p) due rest k in
            let w : f ≡ t.expiration = (queued_at v f p t (inr old) l).0 in
            let above : entry_lt (e, p) (f, p) ≡ true = v.sorted.0 (f, p) old in
            let self : entry_lt (e, p) (e, p) ≡ false = entry_order.irrefl (e, p) in cc),
        distinct due rest _ (Inv-retired v p t refl l),
      )

abbrev pub AllDue : ℤ → List Entry → Type 0
AllDue now es = (e : ℤ) (p : ℕ) → In (e, p) es → e ≤ℤ now

abbrev pub NoneDue : ℤ → List Entry → Type 0
NoneDue now es = (e : ℤ) (p : ℕ) → In (e, p) es → ltb_ℤ now e ≡ true

is_earliest-NoneDue : (now : ℤ) (es : List Entry) → NoneDue now es → is_earliest now es ≡ true
is_earliest-NoneDue now [] h = refl
is_earliest-NoneDue now ((e, p) ∷ es) h = h e p (inl refl)

due_of_lt : (e now : ℤ) (p : ℕ) → entry_lt (e, p) (now, uintptr_max) ≡ true → e ≤ℤ now
unfolding entry_lt
due_of_lt e now p h = ground (arith, h)

late_of_ge :
    (e now : ℤ) (p : ℕ)
    → p < uintptr_max
    → entry_lt (e, p) (now, uintptr_max) ≡ false
    → ltb_ℤ now e ≡ true
unfolding entry_lt
late_of_ge e now p l h = ground (arith, h, l)

abbrev pub Taken : (ℕ → Type 0) → ℤ → TimerQueue → List Entry × TimerQueue → Type 0
Taken Out now q (expired, r) =
    Owns (λ p. Out p ⊎ In p (addresses expired)) r
    × (expired ++ r.timers ≡ q.timers)
    × AllDue now expired
    × NoneDue now r.timers
    × AllDistinct (addresses expired)

-- On a queue with the invariant, `getExpired(now)` meets no failed assertion and no dead pointer. The
-- entries that it returns and those that stay, in this order, are the entries there were; the returned
-- ones are all due at `now`, those that stay are all later, no timer is returned twice, and the
-- invariant holds with the returned timers on the heap and in neither set.
pub get_expired-Taken :
    {Out : ℕ → Type 0} (now : ℤ) (q : TimerQueue)
    → Owns Out q
    → Returns (Taken Out now q) (get_expired now q)
unfolding get_expired
get_expired-Taken {Out} now q v =
    let sentry : Entry = (now, uintptr_max) in
    let due : List Entry = before entry_lt sentry q.timers in
    let rest : List Entry = from_bound entry_lt sentry q.timers in
    let parts : due ++ rest ≡ q.timers = before-append_from entry_lt sentry q.timers in
    let w : Inv Out (due ++ rest) q.active_timers q.heap =
      subst (λ l. Inv Out l q.active_timers q.heap) (sym parts) v in
    let late : NoneDue now rest = λ e p i.
      let (t, l, x, j) = w.queued e p (In-append (e, p) due rest i) in
      late_of_ge e now p (v.low p t l)
        (from_bound-ge entry_lt entry_order sentry (e, p) q.timers v.sorted i) in
    rw (sizes-same q v.sizes, is_earliest-NoneDue now rest late)
      (Returns-bind (λ a. Inv (λ x. Out x ⊎ In x (addresses due)) rest a q.heap) (Taken Out now q)
        (retire due q.heap q.active_timers) _ (retire-Inv q.heap due rest q.active_timers w)
        λ a u. rw (sizes-same (record q { timers = rest; active_timers = a }) u.sizes) (
          u,
          parts,
          (λ e p i. due_of_lt e now p (before-lt entry_lt entry_order sentry (e, p) q.timers i)),
          late,
          distinct q.heap due rest q.active_timers w,
        ))
