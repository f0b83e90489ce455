-- ===== src/WeakCallback.antt =====
-- SrcFile/WeakCallback.h: a callback on an object that may be gone, over a store of the objects that shared
-- pointers keep alive. Both of its versions, with and without C++11, are the same for a function without arguments.
use simple_net_base.Prelude.{
  ℕ, ◌+◌, ◌-◌, ◌≤◌, ◌≡◌, ◌≢◌, refl, Bool, true, false, List, Option, none, some, ◌==◌,
  if◌then◌else◌, lookup, Result, ok, fault, dangling, ◌>>=◌,
}
use simple_net_base.Prelude.Assoc
pub mod Held

-- An object and how many shared pointers it has.
pub record Shared (A : Type 0) : Type 0 where
  pub object : A
  pub uses : ℕ

-- The objects by their addresses. boost::shared_ptr deletes an object with its last pointer.
abbrev pub Store : Type 0 → Type 0
Store A = List (ℕ × Shared A)

-- The weak pointer and the function.
pub record WeakCallback (A : Type 0) : Type 0 where
  pub object : ℕ
  pub function : A → Result A

abbrev pub make_weak_callback : {A : Type 0} → ℕ → (A → Result A) → WeakCallback A
make_weak_callback object function = record { object = object; function = function }

module _ {A : Type 0} where
  -- One more shared pointer, if the object is alive.
  unfoldable pub lock : ℕ → Store A → Option (Store A)
  lock p s = elim (lookup p s) [
    | none ↦ none
    | some o ↦ some (Assoc.insert p (record o { uses = o.uses + 1 }) s)
  ]

  module _ (destroy : A → Result (Unit {0})) where
    -- A shared pointer goes out of scope.
    unfoldable pub release : ℕ → Store A → Result (Store A)
    release p s = elim (lookup p s) [
      | none ↦ fault dangling
      | some o ↦
          let gone = destroy o.object >>= λ u. ok (Assoc.erase p s) in
          if o.uses == 1 then gone else ok (Assoc.insert p (record o { uses = o.uses - 1 }) s)
    ]

    -- The function changes the object that the pointer keeps.
    unfoldable pub apply : (A → Result A) → ℕ → Store A → Result (Store A)
    apply f p s = elim (lookup p s) [
      | none ↦ fault dangling
      | some o ↦ f o.object >>= λ a. ok (Assoc.insert p (record o { object = a }) s)
    ]

    -- `operator()`.
    unfoldable pub call : WeakCallback A → Store A → Result (Store A)
    unfolding lock release apply
    call w s = elim (lock w.object s) [
      | none ↦ ok s
      | some held ↦ apply w.function w.object held >>= release w.object
    ]
