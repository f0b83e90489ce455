-- ===== src/Prelude/Assoc.antt =====
-- `std::map` with integer keys, as an association list.
use Prim.Native.Nat.{ℕ}
use mathlib.Core.Path.{◌≡◌, refl, ap}
use mathlib.Core.Option.{Option, none, some}
use mathlib.Core.Bool.{Bool, true, false}
use mathlib.Core.List.{List, [], ◌∷◌, ◌++◌}
use native.Mathlib.Omega.{arith}
use mathlib.Core.Logic.{inl, inr}
use simple_net_base.Prelude.Tests.{◌==◌, if◌then◌else◌, Bool-cases}

module _ {ℓ} {V : Type ℓ} where
  unfoldable pub lookup : ℕ → List (ℕ × V) → Option V
  lookup key [] = none
  lookup key ((k, value) ∷ rest) =
      let found = lookup key rest in if k == key then some value else found

  unfoldable pub erase : ℕ → List (ℕ × V) → List (ℕ × V)
  erase key [] = []
  erase key ((k, value) ∷ rest) =
      let kept = erase key rest in if k == key then kept else (k, value) ∷ kept

  unfoldable pub insert : ℕ → V → List (ℕ × V) → List (ℕ × V)
  insert key new [] = (key, new) ∷ []
  insert key new ((k, old) ∷ rest) =
      let later = insert key new rest in if k == key then (key, new) ∷ rest else (k, old) ∷ later

  pub lookup-erase :
      (key other : ℕ) (m : List (ℕ × V))
      → lookup other (erase key m) ≡ (if key == other then none else lookup other m)
  unfolding lookup erase
  lookup-erase key other [] = ground arith
  lookup-erase key other ((k, value) ∷ rest) = ground (arith, lookup-erase key other rest)

  pub lookup-insert :
      (key other : ℕ) (new : V) (m : List (ℕ × V))
      → lookup other (insert key new m) ≡ (if key == other then some new else lookup other m)
  unfolding lookup insert
  lookup-insert key other new [] = refl
  lookup-insert key other new ((k, old) ∷ rest) = ground (arith, lookup-insert key other new rest)

  -- No key twice.
  abbrev pub IsMap : List (ℕ × V) → Type ℓ
  IsMap [] = Unit
  IsMap ((k, value) ∷ rest) = (lookup k rest ≡ none) × IsMap rest

  pub erase-IsMap : (key : ℕ) (m : List (ℕ × V)) → IsMap m → IsMap (erase key m)
  unfolding erase
  erase-IsMap key [] h = h
  erase-IsMap key ((k, value) ∷ rest) (new, h) = elim (Bool-cases (k == key)) [
    | inl same ↦ rw same (erase-IsMap key rest h)
    | inr other ↦ rw other (ground (arith, lookup-erase key k rest, new), erase-IsMap key rest h)
  ]

  pub insert-IsMap : (key : ℕ) (new : V) (m : List (ℕ × V)) → IsMap m → IsMap (insert key new m)
  unfolding insert lookup
  insert-IsMap key new [] h = (refl, h)
  insert-IsMap key new ((k, old) ∷ rest) (free, h) = elim (Bool-cases (k == key)) [
    | inl same ↦ rw same (ground (arith, same, free), h)
    | inr other ↦
        rw other
          (ground (arith, lookup-insert key k new rest, other, free), insert-IsMap key new rest h)
  ]

-- The key is there, and leads to this value.
abbrev pub holds : ℕ → ℕ → List (ℕ × ℕ) → Bool
holds k v m = elim (lookup k m) [ none ↦ false | some w ↦ w == v ]

abbrev pub is_none {ℓ} : {A : Type ℓ} → Option A → Bool
is_none none = true
is_none (some a) = false

-- A new key is inserted at the end.
pub insert-new {ℓ} :
    {V : Type ℓ} (key : ℕ) (new : V) (m : List (ℕ × V))
    → lookup key m ≡ none
    → insert key new m ≡ m ++ (key, new) ∷ []
unfolding insert lookup
insert-new key new [] free = refl
insert-new key new ((k, old) ∷ rest) free = elim (Bool-cases (k == key)) [
  | inl same ↦ absurd (ground (arith, free, same))
  | inr other ↦
      rw other (ap (λ l. (k, old) ∷ l) (insert-new key new rest (ground (arith, free, other))))
]
