-- ===== src/TimerQueue/Changes.antt =====
-- What each change of the sets and of the heap of SrcFile/TimerQueue.c does to the invariant.
use simple_net_base.Prelude.{
  ℕ, ◌+◌, ◌≡◌, ◌≢◌, ◌∙◌, sym, ap, subst, false, inl, inr, List, none, some, arith, lookup,
  lookup-insert, lookup-erase, ◌==◌,
}
use simple_net_base.Prelude.Assoc
use simple_net_base.StdSet
use simple_net_base.StdSet.{In, IsSorted, length-insert, length-erase, contains-In}
use simple_net_base.StdSet.Laws.{
  not_contains, In-insert, insert-In, In-erase, erase-In, In-erase_ne, insert-IsSorted,
  erase-IsSorted,
}
use simple_net_base.TimerQueue.{Timer, Entry, ActiveTimer, entry_lt, active_lt}
use simple_net_base.TimerQueue.Invariant.{
  Heap, IsIdle, Inv, entry_order, active_order, queued_at, active_at, idle_entry,
}

-- The heap away from the changed address.
other_key : (p q : ℕ) → p ≢ q → (p == q) ≡ false
other_key p q ne = ground (arith, ne)

pub heap-other :
    (p q : ℕ) (t : Timer) (h : Heap) → p ≢ q → lookup q (Assoc.insert p t h) ≡ lookup q h
heap-other p q t h ne = ground (arith, lookup-insert p q t h, ne)

pub heap-same : (p : ℕ) (t : Timer) (h : Heap) → lookup p (Assoc.insert p t h) ≡ some t
heap-same p t h = ground (arith, lookup-insert p p t h)

pub heap-rest : (p q : ℕ) (h : Heap) → p ≢ q → lookup q (Assoc.erase p h) ≡ lookup q h
heap-rest p q h ne = ground (arith, lookup-erase p q h, ne)

pub heap-gone : (p : ℕ) (h : Heap) → lookup p (Assoc.erase p h) ≡ none
heap-gone p h = ground (arith, lookup-erase p p h)

module _ {Out : ℕ → Type 0} {all : List Entry} {act : List ActiveTimer} {h : Heap}
    (v : Inv Out all act h) (p : ℕ) (t : Timer) where
  -- An idle timer of the heap goes into both sets.
  pub Inv-inserted :
      lookup p h ≡ some t
      → IsIdle p act
      → Inv
          (λ q. Out q × (q ≢ p))
          (StdSet.insert entry_lt (t.expiration, p) all)
          (StdSet.insert active_lt (p, t.sequence) act)
          h
  Inv-inserted l idle = record {
    sorted = insert-IsSorted entry_lt entry_order _ _ v.sorted;
    active_sorted = insert-IsSorted active_lt active_order _ _ v.active_sorted;
    sizes =
        length-insert entry_lt _ all
          (not_contains entry_lt entry_order _ all (idle_entry v t.expiration p idle))
        ∙ ap (λ n. n + 1) v.sizes
        ∙ sym (
            length-insert active_lt _ act
              (not_contains active_lt active_order _ act (idle t.sequence)));
    queued = λ e q i. elim (In-insert entry_lt entry_order _ _ all i) [
      | inl new ↦ (
        t,
        subst (λ x. lookup x h ≡ some t) (ap (λ x. x.1) new) l,
        ap (λ x. x.0) new,
        insert-In active_lt active_order _ _ act
            (inl (ap (λ x. (x, t.sequence)) (ap (λ x. x.1) new))),
      )
      | inr old ↦
          let (u, k, x, j) = v.queued e q old in
          (u, k, x, insert-In active_lt active_order _ _ act (inr j))
    ];
    active = λ q s i. elim (In-insert active_lt active_order _ _ act i) [
      | inl new ↦ (
        t,
        subst (λ x. lookup x h ≡ some t) (ap (λ x. x.0) new) l,
        ap (λ x. x.1) new,
        insert-In entry_lt entry_order _ _ all
            (inl (ap (λ x. (t.expiration, x)) (ap (λ x. x.0) new))),
      )
      | inr old ↦
          let (u, k, x, j) = v.active q s old in
          (u, k, x, insert-In entry_lt entry_order _ _ all (inr j))
    ];
    outside = λ q (o, ne).
        let (u, k, away) = v.outside q o in
        (
          u,
          k,
          λ s i. elim (In-insert active_lt active_order _ _ act i) [
            | inl new ↦ ne (sym (ap (λ x. x.0) new))
            | inr old ↦ away s old
          ],
        );
    low = v.low;
  }

  -- An address has one sequence number.
  pub no_longer :
      (q s : ℕ)
      → q ≡ p
      → lookup p h ≡ some t
      → In (q, s) (StdSet.erase active_lt (p, t.sequence) act)
      → ⊥
  no_longer q s same l j =
      let old : In (q, s) act = In-erase active_lt active_order (p, t.sequence) (q, s) act j in
      let w : s ≡ t.sequence =
        (active_at v q s t old (subst (λ x. lookup x h ≡ some t) (sym same) l)).0 in
      In-erase_ne active_lt active_order (p, t.sequence) (q, s) act v.active_sorted j cc

  -- An active timer leaves both sets and the heap.
  pub Inv-canceled :
      lookup p h ≡ some t
      → In (p, t.sequence) act
      → Inv Out
          (StdSet.erase entry_lt (t.expiration, p) all)
          (StdSet.erase active_lt (p, t.sequence) act)
          (Assoc.erase p h)
  Inv-canceled l i = record {
    sorted = erase-IsSorted entry_lt entry_order _ _ v.sorted;
    active_sorted = erase-IsSorted active_lt active_order _ _ v.active_sorted;
    sizes = omega (
      arith,
      length-erase entry_lt (t.expiration, p) all
          (contains-In entry_lt entry_order _ all v.sorted (active_at v p t.sequence t i l).1),
      length-erase active_lt (p, t.sequence) act
          (contains-In active_lt active_order _ act v.active_sorted i),
      v.sizes,
    );
    queued = λ e q j.
        let old = In-erase entry_lt entry_order _ _ all j in
        let ne : p ≢ q = λ same.
          let w : e ≡ t.expiration =
            (queued_at v e q t old (subst (λ x. lookup x h ≡ some t) same l)).0 in
          In-erase_ne entry_lt entry_order (t.expiration, p) (e, q) all v.sorted j cc in
        let (u, k, x, m) = v.queued e q old in
        (
          u,
          heap-rest p q h ne ∙ k,
          x,
          erase-In active_lt active_order _ _ act m (λ e. ne (sym (ap (λ x. x.0) e))),
        );
    active = λ q s j.
        let old = In-erase active_lt active_order _ _ act j in
        let ne : p ≢ q = λ same. no_longer q s (sym same) l j in
        let (u, k, x, m) = v.active q s old in
        (
          u,
          heap-rest p q h ne ∙ k,
          x,
          erase-In entry_lt entry_order _ _ all m (λ e. ne (sym (ap (λ x. x.1) e))),
        );
    outside = λ q o.
        let (u, k, away) = v.outside q o in
        (
          u,
          heap-rest p q h (λ same. away t.sequence (subst (λ x. In (x, t.sequence) act) same i))
              ∙ k,
          λ s j. away s (In-erase active_lt active_order _ _ act j),
        );
    low = λ q u k. ground (arith, lookup-erase p q h, k, v.low q u);
  }
