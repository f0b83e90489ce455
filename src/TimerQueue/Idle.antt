-- ===== src/TimerQueue/Idle.antt =====
-- What taking an entry out, and making, changing and deleting a timer that is in neither set of
-- SrcFile/TimerQueue.c, do to the invariant.
use simple_net_base.Prelude.{
  ℕ, ◌<◌, ◌≡◌, ◌≢◌, ◌∙◌, refl, sym, ap, subst, true, false, ◌⊎◌, inl, inr, List, ◌∷◌, none, some,
  arith, length, lookup, lookup-insert, lookup-erase, ◌==◌, Bool-cases,
}
use simple_net_base.Prelude.Assoc
use simple_net_base.Prelude.Int.{ℤ}
use simple_net_base.StdSet
use simple_net_base.StdSet.{In, IsSorted, length-insert, length-erase, contains-In}
use simple_net_base.StdSet.Laws.{In-erase, erase-In, erase-IsSorted}
use simple_net_base.TimerQueue.{Timer, Entry, ActiveTimer, entry_lt, active_lt, uintptr_max}
use simple_net_base.TimerQueue.Invariant.{Heap, IsIdle, Inv, entry_order, active_order, queued_at}
use simple_net_base.TimerQueue.Changes.{no_longer, heap-other, heap-same, heap-rest}

module _ {Out : ℕ → Type 0} {all : List Entry} {act : List ActiveTimer} {h : Heap}
    (v : Inv Out all act h) (p : ℕ) (t : Timer) where
  -- The first entry and the active timer that belongs to it leave the sets.
  pub Inv-retired :
      {rest : List Entry} {e : ℤ}
      → all ≡ (e, p) ∷ rest
      → lookup p h ≡ some t
      → Inv (λ q. Out q ⊎ (q ≡ p)) rest (StdSet.erase active_lt (p, t.sequence) act) h
  Inv-retired {rest} {e} ea l =
      let i : In (e, p) all = subst (λ a. In (e, p) a) (sym ea) (inl refl) in
      let (ee, ia) = queued_at v e p t i l in
      let so : IsSorted entry_lt ((e, p) ∷ rest) = subst (IsSorted entry_lt) ea v.sorted in
      record {
        sorted = so.1;
        active_sorted = erase-IsSorted active_lt active_order _ _ v.active_sorted;
        sizes = omega (
          arith,
          length-erase active_lt (p, t.sequence) act
              (contains-In active_lt active_order _ act v.active_sorted ia),
          v.sizes,
          ap length ea,
        );
        queued = λ f q j.
            let old : In (f, q) all = subst (λ a. In (f, q) a) (sym ea) (inr j) in
            let ne : p ≢ q = λ same.
              let w : f ≡ t.expiration =
                (queued_at v f q t old (subst (λ x. lookup x h ≡ some t) same l)).0 in
              let above : entry_lt (e, p) (f, q) ≡ true = so.0 (f, q) j in
              let self : entry_lt (e, p) (e, p) ≡ false = entry_order.irrefl (e, p) in cc in
            let (u, k, x, m) = v.queued f q old in
            (u, k, x, erase-In active_lt active_order _ _ act m (λ d. ne (sym (ap (λ y. y.0) d))));
        active = λ q s j.
            let old = In-erase active_lt active_order _ _ act j in
            let (u, k, x, m) = v.active q s old in
            (
              u,
              k,
              x,
              elim (subst (λ a. In (u.expiration, q) a) ea m) [
                | inl d ↦ absurd (no_longer v p t q s (sym (ap (λ y. y.1) d)) l j)
                | inr r ↦ r
              ],
            );
        outside = λ q o. elim o [
          | inl was ↦
              let (u, k, away) = v.outside q was in
              (u, k, λ s j. away s (In-erase active_lt active_order _ _ act j))
          | inr same ↦ (
            t,
            subst (λ x. lookup x h ≡ some t) (sym same) l,
            λ s j. no_longer v p t q s same l j,
          )
        ];
        low = v.low;
      }

  -- A timer is put where none is.
  pub Inv-allocated :
      lookup p h ≡ none → p < uintptr_max → Inv (λ q. Out q ⊎ (q ≡ p)) all act (Assoc.insert p t h)
  Inv-allocated l small = record {
    sorted = v.sorted;
    active_sorted = v.active_sorted;
    sizes = v.sizes;
    queued = λ e q i.
        let (u, k, x, j) = v.queued e q i in (u, ground (arith, lookup-insert p q t h, k, l), x, j);
    active = λ q s i.
        let (u, k, x, j) = v.active q s i in (u, ground (arith, lookup-insert p q t h, k, l), x, j);
    outside = λ q o. elim o [
      | inl was ↦
          let (u, k, away) = v.outside q was in
          (u, ground (arith, lookup-insert p q t h, k, l), away)
      | inr same ↦ (t, rw same (heap-same p t h), λ s j. let (u, k, x, m) = v.active q s j in cc)
    ];
    low = λ q u k. ground (arith, lookup-insert p q t h, k, v.low q u, small);
  }

  -- An idle timer changes.
  pub Inv-changed :
      {u : Timer} → lookup p h ≡ some u → IsIdle p act → Inv Out all act (Assoc.insert p t h)
  Inv-changed {u} l idle = record {
    sorted = v.sorted;
    active_sorted = v.active_sorted;
    sizes = v.sizes;
    queued = λ e q i.
        let (w, k, x, j) = v.queued e q i in
        (
          w,
          heap-other p q t h
                (λ same. idle w.sequence (subst (λ y. In (y, w.sequence) act) (sym same) j))
              ∙ k,
          x,
          j,
        );
    active = λ q s i.
        let (w, k, x, j) = v.active q s i in
        (
          w,
          heap-other p q t h (λ same. idle s (subst (λ y. In (y, s) act) (sym same) i)) ∙ k,
          x,
          j,
        );
    outside = λ q o.
        let (w, k, away) = v.outside q o in
        elim (Bool-cases (p == q)) [
          | inl same ↦ (t, ground (arith, lookup-insert p q t h, same), away)
          | inr ne ↦ (w, ground (arith, lookup-insert p q t h, ne, k), away)
        ];
    low = λ q w k. ground (arith, lookup-insert p q t h, k, v.low q w, v.low p u l);
  }

  -- An idle timer is deleted.
  pub Inv-deleted : IsIdle p act → Inv (λ q. Out q × (q ≢ p)) all act (Assoc.erase p h)
  Inv-deleted idle = record {
    sorted = v.sorted;
    active_sorted = v.active_sorted;
    sizes = v.sizes;
    queued = λ e q i.
        let (w, k, x, j) = v.queued e q i in
        (
          w,
          heap-rest p q h
                (λ same. idle w.sequence (subst (λ y. In (y, w.sequence) act) (sym same) j))
              ∙ k,
          x,
          j,
        );
    active = λ q s i.
        let (w, k, x, j) = v.active q s i in
        (w, heap-rest p q h (λ same. idle s (subst (λ y. In (y, s) act) (sym same) i)) ∙ k, x, j);
    outside = λ q (o, ne).
        let (w, k, away) = v.outside q o in (w, heap-rest p q h (λ same. ne (sym same)) ∙ k, away);
    low = λ q w k. ground (arith, lookup-erase p q h, k, v.low q w);
  }
