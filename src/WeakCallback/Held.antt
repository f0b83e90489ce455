-- ===== src/WeakCallback/Held.antt =====
-- A weak callback leaves the number of shared pointers as it was.
use simple_net_base.Prelude.{
  ℕ, ◌+◌, ◌-◌, ◌≤◌, ◌≡◌, refl, false, List, [], ◌∷◌, Option, none, some, ◌==◌, ◌∙◌, lookup, Result,
  ok, fault, ◌>>=◌, arith,
}
use simple_net_base.Prelude.Assoc
use simple_net_base.Prelude.Assoc.{lookup-insert, lookup-erase}
use simple_net_base.WeakCallback.{Shared, Store, WeakCallback, lock, release, apply, call}

insert-insert :
    {V : Type 0} (key : ℕ) (x y : V) (m : List (ℕ × V))
    → Assoc.insert key y (Assoc.insert key x m) ≡ Assoc.insert key y m
unfolding Assoc.insert
insert-insert key x y [] = ground arith
insert-insert key x y ((k, old) ∷ rest) = ground (arith, insert-insert key x y rest)

module _ {A : Type 0} (destroy : A → Result (Unit {0})) where
  -- What the callback is for: the function on the object, if it is there.
  unfoldable pub adjusted : WeakCallback A → Store A → Result (Store A)
  adjusted w s = elim (lookup w.object s) [
    | none ↦ ok s
    | some o ↦ w.function o.object >>= λ a. ok (Assoc.insert w.object (record o { object = a }) s)
  ]

  apply_at :
      (f : A → Result A) (p : ℕ) (s : Store A) (o : Shared A)
      → lookup p s ≡ some o
      → apply destroy f p s ≡ (f o.object >>= λ a. ok (Assoc.insert p (record o { object = a }) s))
  unfolding apply
  apply_at f p s o e = rw (e, apply) refl

  release_kept :
      (p : ℕ) (s : Store A) (o : Shared A)
      → lookup p s ≡ some o
      → 2 ≤ o.uses
      → release destroy p s ≡ ok (Assoc.insert p (record o { uses = o.uses - 1 }) s)
  unfolding release
  release_kept p s o e more =
      let many : (o.uses == 1) ≡ false = ground (arith, more) in rw (e, many, release) refl

  module _ (p : ℕ) (s : Store A) (o : Shared A) (used : 1 ≤ o.uses) where
    abbrev held : Store A
    held = Assoc.insert p (record o { uses = o.uses + 1 }) s

    at_p : (x : Shared A) (m : Store A) → lookup p (Assoc.insert p x m) ≡ some x
    at_p x m = ground (arith, lookup-insert p p x m)

    released :
        (m : Result A)
        → ((m >>= λ a. ok (Assoc.insert p (record o { object = a; uses = o.uses + 1 }) held))
            >>= release destroy p)
          ≡ (m >>= λ a. ok (Assoc.insert p (record o { object = a }) s))
    released (fault e) = refl
    released (ok a) =
        let x : Shared A = record { object = a; uses = o.uses + 1 } in
        let back : x.uses - 1 ≡ o.uses = omega arith in
        rw
          (
            release_kept p (Assoc.insert p x held) x (at_p x held) (omega (arith, used)),
            back,
            insert-insert p x (record o { object = a }) held,
            insert-insert p (record o { uses = o.uses + 1 }) (record o { object = a }) s,
          )
          refl

    call_alive :
        (f : A → Result A)
        → lookup p s ≡ some o
        → call destroy (record { object = p; function = f }) s
          ≡ (f o.object >>= λ a. ok (Assoc.insert p (record o { object = a }) s))
    unfolding call lock
    call_alive f e =
        rw (e, apply_at f p held (record o { uses = o.uses + 1 }) (at_p _ s), call, lock)
          (released (f o.object))

  -- If the object of a weak callback, if it is alive, has a shared pointer: calling it does nothing for an
  -- object that is gone; for one that is alive it does what the function does to it, fails if the
  -- function fails, leaves the number of its shared pointers and deletes no object.
  pub call-adjusted :
      (w : WeakCallback A) (s : Store A)
      → ((o : Shared A) → lookup w.object s ≡ some o → 1 ≤ o.uses)
      → call destroy w s ≡ adjusted w s
  unfolding adjusted call lock
  call-adjusted w s used = decided (lookup w.object s) refl
    where
      decided : (x : Option (Shared A)) → lookup w.object s ≡ x → call destroy w s ≡ adjusted w s
      decided none e = rw (e, call, adjusted, lock) refl
      decided (some o) e = call_alive w.object s o (used o e) w.function e ∙ rw (e, adjusted) refl
