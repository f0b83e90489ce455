-- ===== src/Timestamp/Printing.antt =====
-- The text of a time of SrcFile/Timestamp.c.
use simple_net_base.Prelude.{
  ℕ, ◌+◌, ◌*◌, ◌/◌, ◌%◌, ◌^◌, ◌<◌, ◌≡◌, refl, List, ◌∷◌, ◌++◌, length, length-append, take-all,
  arith, lt→ltb,
}
use simple_net_base.Prelude.Int.{pos}
use simple_net_base.Prelude.Decimal.{
  decimal, snprintf, number_from, number_from-decimal, length-decimal,
}
use simple_net_base.Timestamp.{fixed, padded6, signed_decimal, to_string}

-- A text of seconds, a point and six digits of microseconds, which tell the time.
abbrev pub Tells : ℕ → List ℕ → Type 0
Tells time text =
    (s : List ℕ) × (m : List ℕ) × (text ≡ s ++ b'.' ∷ m)
    × (length m ≡ 6)
    × (number_from 0 s * 1_000_000 + number_from 0 m ≡ time)

number_from-fixed : (n : ℕ) → n < 1_000_000 → number_from 0 (fixed 6 n) ≡ n
number_from-fixed n h = omega arith

-- Of a time from the epoch on, with 63 bits: the text is the whole seconds, a point and six digits of
-- microseconds, with nothing cut off, and both numbers together are the time.
pub to_string-Tells : (time : ℕ) → time < 2 ^ 63 → Tells time (to_string (pos time))
unfolding to_string padded6 signed_decimal snprintf
to_string-Tells time h =
    let s = decimal (time / 1_000_000) in
    let m = fixed 6 (time % 1_000_000) in
    (
      s,
      m,
      rw (lt→ltb (time % 1_000_000) 1_000_000 (omega arith)) (
          take-all 30 (s ++ b'.' ∷ m) (
            omega (
              arith,
              length-append s (b'.' ∷ m),
              length-decimal 12 (time / 1_000_000) (omega arith),
            ))),
      refl,
      omega (
        arith,
        number_from-decimal (time / 1_000_000),
        number_from-fixed (time % 1_000_000) (omega arith),
      ),
    )
