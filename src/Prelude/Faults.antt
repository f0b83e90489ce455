-- ===== src/Prelude/Faults.antt =====
-- Computations that may stop: a failed `assert`, an access through a dead pointer, `new` with no
-- memory left, or a call of `abort`.
use mathlib.Core.Bool.{Bool, true, false}
use mathlib.Core.Path.{◌≡◌, refl, ap, subst}
use simple_net_base.Prelude.Tests.{if◌then◌else◌}

pub data Fault : Type 0 where
  assert_failed dangling bad_alloc aborted : Fault

pub data Result {ℓ} (A : Type ℓ) : Type ℓ where
  ok : A → Result A
  fault : Fault → Result A

-- `abbrev`, so that a bind of a known result computes in statements.
infixl 5 ◌>>=◌ ◌>>◌
abbrev pub ◌>>=◌ {ℓ κ} : {A : Type ℓ} {B : Type κ} → Result A → (A → Result B) → Result B
ok a >>= f = f a
fault e >>= f = fault e

abbrev pub ◌>>◌ {ℓ} : {B : Type ℓ} → Result (Unit {0}) → Result B → Result B
m >> k = m >>= λ _. k

-- `assert(b)` of the C library, in a build without NDEBUG.
abbrev pub assert : Bool → Result (Unit {0})
assert true = ok tt
assert false = fault assert_failed

-- The computation ends in a value that satisfies `P`.
abbrev pub Returns {ℓ} : {A : Type ℓ} → (A → Type 0) → Result A → Type 0
Returns P (ok a) = P a
Returns P (fault e) = ⊥

pub Returns-bind {ℓ κ} :
    {A : Type ℓ} {B : Type κ} (P : A → Type 0) (Q : B → Type 0) (m : Result A) (k : A → Result B)
    → Returns P m
    → ((a : A) → P a → Returns Q (k a))
    → Returns Q (m >>= k)
Returns-bind P Q (ok a) k p f = f a p
Returns-bind P Q (fault e) k p f = absurd p

pub Returns-mono {ℓ} :
    {A : Type ℓ} (P Q : A → Type 0) (m : Result A)
    → Returns P m
    → ((a : A) → P a → Q a)
    → Returns Q m
Returns-mono P Q (ok a) p f = f a p
Returns-mono P Q (fault e) p f = absurd p

abbrev value_or {ℓ} : {A : Type ℓ} → A → Result A → A
value_or a (ok x) = x
value_or a (fault e) = a

-- What holds of a returned value holds of the value that was returned.
pub Returns-ok {ℓ} :
    {A : Type ℓ} (P : A → Type 0) (m : Result A) {a : A} → Returns P m → m ≡ ok a → P a
Returns-ok P (ok x) {a} p e = subst P (ap (value_or a) e) p
Returns-ok P (fault x) p e = absurd p

-- The computation ends in a value that satisfies `P`, or in this one fault.
abbrev pub Barring {ℓ} : {A : Type ℓ} → Fault → (A → Type 0) → Result A → Type 0
Barring e P (ok a) = P a
Barring e P (fault d) = d ≡ e

pub Barring-bind {ℓ κ} :
    {A : Type ℓ} {B : Type κ} (e : Fault) (P : A → Type 0) (Q : B → Type 0) (m : Result A)
    (k : A → Result B)
    → Barring e P m
    → ((a : A) → P a → Barring e Q (k a))
    → Barring e Q (m >>= k)
Barring-bind e P Q (ok a) k p f = f a p
Barring-bind e P Q (fault d) k p f = p

pub Returns-Barring {ℓ} :
    {A : Type ℓ} (e : Fault) (P Q : A → Type 0) (m : Result A)
    → Returns P m
    → ((a : A) → P a → Q a)
    → Barring e Q m
Returns-Barring e P Q (ok a) p f = f a p
Returns-Barring e P Q (fault d) p f = absurd p

pub Returns-bind_eq {ℓ κ} :
    {A : Type ℓ} {B : Type κ} (P : A → Type 0) (Q : B → Type 0) (m : Result A) (k : A → Result B)
    → Returns P m
    → ((a : A) → m ≡ ok a → P a → Returns Q (k a))
    → Returns Q (m >>= k)
Returns-bind_eq P Q (ok a) k p f = f a refl p
Returns-bind_eq P Q (fault e) k p f = absurd p

-- What follows a value that satisfies `P`.
pub Returns-bind_to {ℓ κ} :
    {A : Type ℓ} {B : Type κ} (P : A → Type 0) (y : Result B) (m : Result A) (k : A → Result B)
    → Returns P m
    → ((a : A) → P a → k a ≡ y)
    → (m >>= k) ≡ y
Returns-bind_to P y (ok a) k p f = f a p
Returns-bind_to P y (fault e) k p f = absurd p

pub fault_first {ℓ κ} :
    {A : Type ℓ} {B : Type κ} (e : Fault) (m : Result A) (k : A → Result B)
    → m ≡ fault e
    → (m >>= k) ≡ fault e
fault_first e m k h = ap (λ n. n >>= k) h

pub Returns-both {ℓ} :
    {A : Type ℓ} (P Q : A → Type 0) (m : Result A)
    → Returns P m
    → Returns Q m
    → Returns (λ a. P a × Q a) m
Returns-both P Q (ok a) p q = (p, q)
Returns-both P Q (fault e) p q = p

pub >>=_assoc {ℓ κ μ} :
    {A : Type ℓ} {B : Type κ} {C : Type μ} (m : Result A) (f : A → Result B) (g : B → Result C)
    → ((m >>= f) >>= g) ≡ (m >>= λ a. f a >>= g)
>>=_assoc (ok a) f g = refl
>>=_assoc (fault e) f g = refl

-- What the computation ends in, if it ends, satisfies `P`.
abbrev pub Whenever {ℓ} : {A : Type ℓ} → (A → Type 0) → Result A → Type 0
Whenever P (ok a) = P a
Whenever P (fault e) = Unit {0}

pub Whenever-bind {ℓ κ} :
    {A : Type ℓ} {B : Type κ} (P : A → Type 0) (Q : B → Type 0) (m : Result A) (k : A → Result B)
    → Whenever P m
    → ((a : A) → P a → Whenever Q (k a))
    → Whenever Q (m >>= k)
Whenever-bind P Q (ok a) k p f = f a p
Whenever-bind P Q (fault e) k p f = tt

-- After any first step.
pub Whenever-after {ℓ κ} :
    {A : Type ℓ} {B : Type κ} (Q : B → Type 0) (m : Result A) (k : A → Result B)
    → ((a : A) → Whenever Q (k a))
    → Whenever Q (m >>= k)
Whenever-after Q (ok a) k f = f a
Whenever-after Q (fault e) k f = tt

pub Whenever-ok {ℓ} :
    {A : Type ℓ} (P : A → Type 0) (m : Result A) {a : A} → Whenever P m → m ≡ ok a → P a
Whenever-ok P m p e = subst (Whenever P) e p

-- Either way of an `if`.
pub Whenever-if {ℓ} :
    {A : Type ℓ} (P : A → Type 0) (b : Bool) (x y : Result A)
    → Whenever P x
    → Whenever P y
    → Whenever P (if b then x else y)
Whenever-if P true x y p q = p
Whenever-if P false x y p q = q

pub Returns-and {ℓ} :
    {A : Type ℓ} (P Q : A → Type 0) (m : Result A)
    → Returns P m
    → Returns Q m
    → Returns (λ a. P a × Q a) m
Returns-and P Q (ok a) p q = (p, q)
Returns-and P Q (fault e) p q = p
