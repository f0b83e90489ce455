-- ===== src/StdSet/Canonical.antt =====
-- A std::set is known by its elements: the list in order is the only one.
use simple_net_base.Prelude.{
  ◌≡◌, ◌↔◌, refl, sym, subst, Bool, true, ◌⊎◌, inl, inr, List, [], ◌∷◌, arith,
}
use simple_net_base.StdSet
use simple_net_base.StdSet.{In, IsSorted, AllAbove, StrictOrder}
use simple_net_base.StdSet.Laws.{In-insert, insert-In, insert-IsSorted}

module _ {A : Type 0} (lt : A → A → Bool) (o : StrictOrder lt) where
  abbrev pub SameElements : List A → List A → Type 0
  SameElements xs ys = (a : A) → In a xs ↔ In a ys

  not_above : (x y : A) → lt x y ≡ true → lt y x ≡ true → ⊥
  not_above x y h k = ground (arith, o.trans x y x, o.irrefl x, h, k)

  -- The first elements are the same.
  heads :
      (x y : A) (xs ys : List A)
      → AllAbove lt x xs
      → AllAbove lt y ys
      → (x ≡ y) ⊎ In y xs
      → (y ≡ x) ⊎ In x ys
      → x ≡ y
  heads x y xs ys h k (inl e) other = e
  heads x y xs ys h k (inr i) (inl e) = sym e
  heads x y xs ys h k (inr i) (inr j) = absurd (not_above x y (h y i) (k x j))

  -- What is above the first element is in the rest.
  in_rest : (x a : A) (xs : List A) → lt x a ≡ true → (x ≡ a) ⊎ In a xs → In a xs
  in_rest x a xs h (inl e) = ground (arith, o.irrefl a, subst (λ z. lt z a ≡ true) e h)
  in_rest x a xs h (inr i) = i

  pub eq_of_elements :
      (xs ys : List A) → IsSorted lt xs → IsSorted lt ys → SameElements xs ys → xs ≡ ys
  eq_of_elements [] [] s t same = refl
  eq_of_elements [] (y ∷ ys) s t same = elim ((same y).1 (inl refl)) [ ]
  eq_of_elements (x ∷ xs) [] s t same = elim ((same x).0 (inl refl)) [ ]
  eq_of_elements (x ∷ xs) (y ∷ ys) (h, s) (k, t) same =
      let e : x ≡ y = heads x y xs ys h k ((same y).1 (inl refl)) ((same x).0 (inl refl)) in
      let rest : xs ≡ ys = eq_of_elements xs ys s t λ a. (
        (λ i. in_rest y a ys (subst (λ z. lt z a ≡ true) e (h a i)) ((same a).0 (inr i))),
        (λ i. in_rest x a xs (subst (λ z. lt z a ≡ true) (sym e) (k a i)) ((same a).1 (inr i))),
      ) in
      cc

  swapped :
      (x y a : A) (s : List A)
      → In a (StdSet.insert lt x (StdSet.insert lt y s))
      → In a (StdSet.insert lt y (StdSet.insert lt x s))
  swapped x y a s i = elim (In-insert lt o x a (StdSet.insert lt y s) i) [
    | inl e ↦ insert-In lt o y a (StdSet.insert lt x s) (inr (insert-In lt o x a s (inl e)))
    | inr j ↦ elim (In-insert lt o y a s j) [
      | inl e ↦ insert-In lt o y a (StdSet.insert lt x s) (inl e)
      | inr k ↦ insert-In lt o y a (StdSet.insert lt x s) (inr (insert-In lt o x a s (inr k)))
    ]
  ]

  -- The order of two insertions does not matter.
  pub insert_comm :
      (x y : A) (s : List A)
      → IsSorted lt s
      → StdSet.insert lt x (StdSet.insert lt y s) ≡ StdSet.insert lt y (StdSet.insert lt x s)
  insert_comm x y s h =
      eq_of_elements _ _ (insert-IsSorted lt o x _ (insert-IsSorted lt o y s h))
        (insert-IsSorted lt o y _ (insert-IsSorted lt o x s h))
        λ a. (swapped x y a s, swapped y x a s)
