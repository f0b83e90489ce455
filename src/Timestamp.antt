-- ===== src/Timestamp.antt =====
-- SrcFile/Timestamp.h and SrcFile/Timestamp.c: times as microseconds since the epoch, and their text. What
-- gmtime_r makes of seconds is an argument.
use simple_net_base.Prelude.{
  ℕ, zero, suc, ◌+◌, ◌-◌, ◌*◌, ◌/◌, ◌%◌, Bool, true, false, List, [], ◌∷◌, ◌++◌, ltb, if◌then◌else◌,
}
use simple_net_base.Prelude.Int.{ℤ, pos, negsuc, ◌+ℤ◌, ◌*ℤ◌, ltb_ℤ, quot, rem}
use simple_net_base.Prelude.Decimal.{decimal, snprintf}
pub mod Printing

abbrev pub micro_seconds_per_second : ℕ
micro_seconds_per_second = 1000 * 1000

-- The constructor with no argument, and `invalid`.
abbrev pub invalid : ℤ
invalid = pos 0

abbrev pub valid : ℤ → Bool
valid time = ltb_ℤ (pos 0) time

abbrev pub add_time : ℤ → ℤ → ℤ
add_time time delta = time +ℤ delta

unfoldable pub from_unix_time : ℤ → ℤ → ℤ
from_unix_time t microseconds = t *ℤ pos micro_seconds_per_second +ℤ microseconds

unfoldable pub seconds_since_epoch : ℤ → ℤ
seconds_since_epoch time = quot time micro_seconds_per_second

-- `now`, with what gettimeofday answers.
unfoldable pub now : ℤ → ℤ → ℤ
now tv_sec tv_usec = tv_sec *ℤ pos micro_seconds_per_second +ℤ tv_usec

-- A number below 10 ^ k with k digits.
abbrev pub fixed : ℕ → ℕ → List ℕ
fixed zero n = []
fixed (suc k) n = fixed k (n / 10) ++ (b'0' + n % 10) ∷ []

-- `%06d`: at least six characters, a sign included.
unfoldable pub padded6 : ℤ → List ℕ
padded6 (pos n) = if ltb n 1_000_000 then fixed 6 n else decimal n
padded6 (negsuc n) = b'-' ∷ (if ltb (n + 1) 100_000 then fixed 5 (n + 1) else decimal (n + 1))

-- `%d`.
unfoldable pub signed_decimal : ℤ → List ℕ
signed_decimal (pos n) = decimal n
signed_decimal (negsuc n) = b'-' ∷ decimal (n + 1)

unfoldable pub to_string : ℤ → List ℕ
unfolding padded6 signed_decimal snprintf
to_string time = snprintf 31 (
    signed_decimal (quot time micro_seconds_per_second)
    ++ b'.' ∷ padded6 (rem time micro_seconds_per_second))

-- The fields of `struct tm`, the years from 1900 and the months from 0.
pub record Tm : Type 0 where
  pub tm_year : ℕ
  pub tm_mon : ℕ
  pub tm_mday : ℕ
  pub tm_hour : ℕ
  pub tm_min : ℕ
  pub tm_sec : ℕ

-- `%4d`, of a year with four digits, and `%02d`, of a number below 100.
unfoldable pub date_text : Tm → List ℕ
date_text t =
    decimal (t.tm_year + 1900)
    ++ fixed 2 (t.tm_mon + 1)
    ++ fixed 2 t.tm_mday
    ++ b' ' ∷ (fixed 2 t.tm_hour ++ b':' ∷ (fixed 2 t.tm_min ++ b':' ∷ fixed 2 t.tm_sec))

unfoldable pub to_formatted_string : (ℤ → Tm) → Bool → ℤ → List ℕ
unfolding date_text padded6 snprintf
to_formatted_string gmtime_r show_microseconds time =
    let date = date_text (gmtime_r (quot time micro_seconds_per_second)) in
    snprintf 64 (
      if show_microseconds
      then date ++ b'.' ∷ padded6 (rem time micro_seconds_per_second)
      else date)
