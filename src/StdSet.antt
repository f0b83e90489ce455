-- ===== src/StdSet.antt =====
-- `std::set` as the code uses it (SrcFile/TimerQueue.h): a list in the order of the comparison, and the
-- laws of its operations. Elements of a set differ from one another.
use simple_net_base.Prelude.{
  ◌+◌, ◌≡◌, ◌≢◌, refl, subst, Bool, true, false, ◌⊎◌, inl, inr, List, [], ◌∷◌, ◌++◌, arith, length,
  if◌then◌else◌,
}
pub mod Laws
pub mod Canonical

pub record StrictOrder {A : Type 0} (lt : A → A → Bool) : Type 0 where
  pub irrefl : (a : A) → lt a a ≡ false
  pub trans : (a b c : A) → lt a b ≡ true → lt b c ≡ true → lt a c ≡ true
  pub tri : (a b : A) → lt a b ≡ false → lt b a ≡ false → a ≡ b

-- Membership with the place kept.
abbrev pub In : {A : Type 0} → A → List A → Type 0
In a [] = ⊥
In a (x ∷ xs) = (x ≡ a) ⊎ In a xs

module _ {A : Type 0} (lt : A → A → Bool) where
  -- `find` and `end()`: whether the element is there.
  unfoldable pub contains : A → List A → Bool
  contains x [] = false
  contains x (y ∷ ys) =
      let rest = contains x ys in if lt x y then false else if lt y x then rest else true

  unfoldable pub insert : A → List A → List A
  insert x [] = x ∷ []
  insert x (y ∷ ys) =
      let rest = insert x ys in if lt x y then x ∷ y ∷ ys else if lt y x then y ∷ rest else y ∷ ys

  unfoldable pub erase : A → List A → List A
  erase x [] = []
  erase x (y ∷ ys) =
      let rest = erase x ys in if lt x y then y ∷ ys else if lt y x then y ∷ rest else ys

  -- The elements before `lower_bound(x)`, and those from it on.
  unfoldable pub before : A → List A → List A
  before x [] = []
  before x (y ∷ ys) = let rest = before x ys in if lt y x then y ∷ rest else []

  unfoldable pub from_bound : A → List A → List A
  from_bound x [] = []
  from_bound x (y ∷ ys) = let rest = from_bound x ys in if lt y x then rest else y ∷ ys

  -- The first element is below the others.
  abbrev pub AllAbove : A → List A → Type 0
  AllAbove x ys = (y : A) → In y ys → lt x y ≡ true

  abbrev pub IsSorted : List A → Type 0
  IsSorted [] = Unit {0}
  IsSorted (x ∷ xs) = AllAbove x xs × IsSorted xs

  pub length-insert :
      (x : A) (s : List A) → contains x s ≡ false → length (insert x s) ≡ length s + 1
  unfolding contains insert
  length-insert x [] h = omega arith
  length-insert x (y ∷ ys) h = ground (arith, length-insert x ys, h)

  pub length-erase : (x : A) (s : List A) → contains x s ≡ true → length (erase x s) + 1 ≡ length s
  unfolding contains erase
  length-erase x [] h = cc
  length-erase x (y ∷ ys) h = ground (arith, length-erase x ys, h)

  pub before-append_from : (x : A) (s : List A) → before x s ++ from_bound x s ≡ s
  unfolding before from_bound
  before-append_from x [] = refl
  before-append_from x (y ∷ ys) = ground (arith, before-append_from x ys)

  module _ (o : StrictOrder lt) where
    ne_of_lt : (a b : A) → lt a b ≡ true → a ≢ b
    ne_of_lt a b h e = ground (arith, o.irrefl b, subst (λ x. lt x b ≡ true) e h)

    pub In-contains : (x : A) (s : List A) → contains x s ≡ true → In x s
    unfolding contains
    In-contains x [] h = cc
    In-contains x (y ∷ ys) h = ground (arith, In-contains x ys, o.tri x y, h)

    pub contains-In : (x : A) (s : List A) → IsSorted s → In x s → contains x s ≡ true
    unfolding contains
    contains-In x [] s i = elim i [ ]
    contains-In x (y ∷ ys) s (inl e) = ground (arith, o.irrefl y, e)
    contains-In x (y ∷ ys) s (inr i) =
        ground (arith, contains-In x ys s.1 i, s.0 x i, o.trans x y x, o.irrefl x)
