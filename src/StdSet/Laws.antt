-- ===== src/StdSet/Laws.antt =====
-- Membership and order after the operations of a `std::set` (SrcFile/TimerQueue.h).
use simple_net_base.Prelude.{
  ◌≡◌, ◌≢◌, Bool, true, false, ◌⊎◌, inl, inr, List, [], ◌∷◌, arith, Bool-cases,
}
use simple_net_base.StdSet.{
  StrictOrder, In, contains, insert, erase, before, from_bound, IsSorted, In-contains,
}

module _ {A : Type 0} (lt : A → A → Bool) (o : StrictOrder lt) where
  pub not_contains : (x : A) (s : List A) → (In x s → ⊥) → contains lt x s ≡ false
  not_contains x s h = elim (Bool-cases (contains lt x s)) [
    | inl e ↦ absurd (h (In-contains lt o x s e))
    | inr e ↦ e
  ]

  pub In-insert : (x y : A) (s : List A) → In y (insert lt x s) → (x ≡ y) ⊎ In y s
  unfolding insert
  In-insert x y [] (inl e) = inl e
  In-insert x y [] (inr h) = elim h [ ]
  In-insert x y (z ∷ zs) h = ground (arith, In-insert x y zs, h)

  pub insert-In : (x y : A) (s : List A) → (x ≡ y) ⊎ In y s → In y (insert lt x s)
  unfolding insert
  insert-In x y [] (inl e) = inl e
  insert-In x y [] (inr h) = elim h [ ]
  insert-In x y (z ∷ zs) h = ground (arith, insert-In x y zs, o.tri x z, h)

  pub In-erase : (x y : A) (s : List A) → In y (erase lt x s) → In y s
  unfolding erase
  In-erase x y [] h = elim h [ ]
  In-erase x y (z ∷ zs) h = ground (arith, In-erase x y zs, h)

  pub erase-In : (x y : A) (s : List A) → In y s → y ≢ x → In y (erase lt x s)
  unfolding erase
  erase-In x y [] h ne = elim h [ ]
  erase-In x y (z ∷ zs) h ne = ground (arith, erase-In x y zs, o.tri x z, h, ne)

  pub In-erase_ne : (x y : A) (s : List A) → IsSorted lt s → In y (erase lt x s) → y ≢ x
  unfolding erase
  In-erase_ne x y [] h i = elim i [ ]
  In-erase_ne x y (z ∷ zs) h i = λ e.
      ground (
        arith,
        In-erase_ne x y zs h.1,
        h.0 y,
        i,
        o.irrefl x,
        o.tri x z,
        o.irrefl z,
        e,
        o.trans x z x,
      )

  pub insert-IsSorted : (x : A) (s : List A) → IsSorted lt s → IsSorted lt (insert lt x s)
  unfolding insert
  insert-IsSorted x [] h = (λ y i. elim i [ ], tt)
  insert-IsSorted x (z ∷ zs) h = elim (Bool-cases (lt x z)) [
    | inl e ↦ rw e ((λ y i. ground (arith, o.trans x z y, h.0 y, i, e)), h)
    | inr ne ↦ elim (Bool-cases (lt z x)) [
      | inl e ↦
          rw (ne, e)
            ((λ y i. ground (arith, In-insert x y zs i, h.0 y, e)), insert-IsSorted x zs h.1)
      | inr ne' ↦ rw (ne, ne') h
    ]
  ]

  pub erase-IsSorted : (x : A) (s : List A) → IsSorted lt s → IsSorted lt (erase lt x s)
  unfolding erase
  erase-IsSorted x [] h = tt
  erase-IsSorted x (z ∷ zs) h = elim (Bool-cases (lt x z)) [
    | inl e ↦ rw e h
    | inr ne ↦ elim (Bool-cases (lt z x)) [
      | inl e ↦ rw (ne, e) ((λ y i. h.0 y (In-erase x y zs i)), erase-IsSorted x zs h.1)
      | inr ne' ↦ rw (ne, ne') h.1
    ]
  ]

  pub before-lt : (x y : A) (s : List A) → In y (before lt x s) → lt y x ≡ true
  unfolding before
  before-lt x y [] h = elim h [ ]
  before-lt x y (z ∷ zs) h = ground (arith, before-lt x y zs, h)

  pub from_bound-ge :
      (x y : A) (s : List A) → IsSorted lt s → In y (from_bound lt x s) → lt y x ≡ false
  unfolding from_bound
  from_bound-ge x y [] s h = elim h [ ]
  from_bound-ge x y (z ∷ zs) s h = ground (arith, from_bound-ge x y zs s.1, s.0 y, h, o.trans z y x)
