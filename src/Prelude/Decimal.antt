-- ===== src/Prelude/Decimal.antt =====
-- What `snprintf` makes of `%u` and of a bounded buffer: decimal digits, and the part of a text that fits.
use Prim.Native.Char.{code}
use Prim.Native.String.{String}
use Prim.Native.Nat.{ℕ, zero, suc, ◌+◌, ◌-◌, ◌*◌, ◌/◌, ◌%◌, ◌^◌, ◌<◌, ◌≤◌}
use mathlib.Core.Path.{◌≡◌, refl}
use mathlib.Core.Logic.{inl, inr}
use mathlib.Core.Bool.{false}
use mathlib.Core.List.{List, [], ◌∷◌, ◌++◌}
use native.Mathlib.Omega.{arith}
use simple_net_base.Prelude.Tests.{ltb, ◌==◌, if◌then◌else◌, Bool-cases}
use simple_net_base.Prelude.Lists.{length, length-append, take}

-- The bytes of an ASCII literal.
abbrev pub codes : String → List ℕ
codes String.[] = []
codes (String.◌∷◌ c s) = code c ∷ codes s

-- A digit takes one round, so a number has rounds enough.
unfoldable pub digits : ℕ → ℕ → List ℕ
digits zero n = []
digits (suc rounds) n =
    let more = digits rounds (n / 10) ++ (b'0' + n % 10) ∷ [] in
    if ltb n 10 then (b'0' + n) ∷ [] else more

unfoldable pub decimal : ℕ → List ℕ
unfolding digits
decimal n = digits (n + 1) n

-- `snprintf(buf, size, …)`: the text that is in the buffer afterwards.
unfoldable pub snprintf : ℕ → List ℕ → List ℕ
snprintf size text = take (size - 1) text

-- The number that digits stand for, after those read so far.
abbrev pub number_from : ℕ → List ℕ → ℕ
number_from acc [] = acc
number_from acc (c ∷ cs) = number_from (acc * 10 + (c - b'0')) cs

number_from-append :
    (xs ys : List ℕ) (acc : ℕ) → number_from acc (xs ++ ys) ≡ number_from (number_from acc xs) ys
number_from-append [] ys acc = refl
number_from-append (x ∷ xs) ys acc = number_from-append xs ys (acc * 10 + (x - b'0'))

number_from-digits : (rounds n : ℕ) → n < rounds → number_from 0 (digits rounds n) ≡ n
unfolding digits
number_from-digits zero n h = elim h [ ]
number_from-digits (suc rounds) n h = elim (Bool-cases (ltb n 10)) [
  | inl small ↦ rw small (omega arith)
  | inr large ↦
      rw (large, number_from-append (digits rounds (n / 10)) ((b'0' + n % 10) ∷ []) 0)
        (ground (arith, number_from-digits rounds (n / 10)))
]

pub number_from-decimal : (n : ℕ) → number_from 0 (decimal n) ≡ n
unfolding decimal
number_from-decimal n = number_from-digits (n + 1) n (omega arith)

length-digits : (k rounds n : ℕ) → n < 10 ^ suc k → length (digits rounds n) ≤ suc k
unfolding digits
length-digits k zero n h = omega arith
length-digits zero (suc rounds) n h = ground arith
length-digits (suc k) (suc rounds) n h = elim (Bool-cases (ltb n 10)) [
  | inl small ↦ rw small (omega arith)
  | inr large ↦
      rw (large, length-append (digits rounds (n / 10)) ((b'0' + n % 10) ∷ []))
        (omega (arith, length-digits k rounds (n / 10) (omega arith)))
]

-- A number below a power of ten has no more digits than the power has zeros.
pub length-decimal : (k n : ℕ) → n < 10 ^ suc k → length (decimal n) ≤ suc k
unfolding decimal
length-decimal k n h = length-digits k (n + 1) n h

-- What stands before the first colon, and what stands behind it.
abbrev pub before_colon : List ℕ → List ℕ
before_colon [] = []
before_colon (c ∷ cs) = if c == b':' then [] else c ∷ before_colon cs

abbrev pub behind_colon : List ℕ → List ℕ
behind_colon [] = []
behind_colon (c ∷ cs) = if c == b':' then cs else behind_colon cs

-- A text with no colon, followed by one.
abbrev IsPlain : List ℕ → Type 0
IsPlain [] = Unit {0}
IsPlain (c ∷ cs) = ((c == b':') ≡ false) × IsPlain cs

append-IsPlain : (xs ys : List ℕ) → IsPlain xs → IsPlain ys → IsPlain (xs ++ ys)
append-IsPlain [] ys h k = k
append-IsPlain (x ∷ xs) ys (e, h) k = (e, append-IsPlain xs ys h k)

before_colon-IsPlain : (xs ys : List ℕ) → IsPlain xs → before_colon (xs ++ b':' ∷ ys) ≡ xs
before_colon-IsPlain [] ys h = refl
before_colon-IsPlain (x ∷ xs) ys (e, h) = rw (e, before_colon-IsPlain xs ys h) refl

behind_colon-IsPlain : (xs ys : List ℕ) → IsPlain xs → behind_colon (xs ++ b':' ∷ ys) ≡ ys
behind_colon-IsPlain [] ys h = refl
behind_colon-IsPlain (x ∷ xs) ys (e, h) = rw e (behind_colon-IsPlain xs ys h)

digits-IsPlain : (rounds n : ℕ) → IsPlain (digits rounds n)
unfolding digits
digits-IsPlain zero n = tt
digits-IsPlain (suc rounds) n = elim (Bool-cases (ltb n 10)) [
  | inl small ↦ rw small (ground (arith, small), tt)
  | inr large ↦ rw large (
      append-IsPlain (digits rounds (n / 10)) _ (digits-IsPlain rounds (n / 10)) (ground arith, tt))
]

-- A number, a colon and more are told apart at the colon.
pub before_colon-decimal : (n : ℕ) (ys : List ℕ) → before_colon (decimal n ++ b':' ∷ ys) ≡ decimal n
unfolding decimal
before_colon-decimal n ys = before_colon-IsPlain (digits (n + 1) n) ys (digits-IsPlain (n + 1) n)

pub behind_colon-decimal : (n : ℕ) (ys : List ℕ) → behind_colon (decimal n ++ b':' ∷ ys) ≡ ys
unfolding decimal
behind_colon-decimal n ys = behind_colon-IsPlain (digits (n + 1) n) ys (digits-IsPlain (n + 1) n)
