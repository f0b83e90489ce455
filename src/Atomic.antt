-- ===== src/Atomic.antt =====
-- SrcFile/Atomic.h: integers of `w` bits that the compiler's builtins change in one step, as bit patterns. An
-- operation gives its result and the new value. (A sum outside the range of the signed type, which
-- `addAndGet` computes again beside the builtin, wraps here.)
use simple_net_base.Prelude.{ℕ, ◌+◌, ◌-◌, ◌%◌, ◌^◌}

unfoldable pub get : ℕ → ℕ → ℕ × ℕ
get w value = (value, value)

unfoldable pub get_and_add : ℕ → ℕ → ℕ → ℕ × ℕ
get_and_add w x value = (value, (value + x) % 2 ^ w)

unfoldable pub add_and_get : ℕ → ℕ → ℕ → ℕ × ℕ
unfolding get_and_add
add_and_get w x value = let (old, new) = get_and_add w x value in ((old + x) % 2 ^ w, new)

unfoldable pub increment_and_get : ℕ → ℕ → ℕ × ℕ
unfolding add_and_get
increment_and_get w value = add_and_get w 1 value

-- The bit pattern of -1.
unfoldable pub decrement_and_get : ℕ → ℕ → ℕ × ℕ
unfolding add_and_get
decrement_and_get w value = add_and_get w (2 ^ w - 1) value

unfoldable pub get_and_set : ℕ → ℕ → ℕ → ℕ × ℕ
get_and_set w x value = (value, x)

-- `add`, `increment` and `decrement` drop the result.
unfoldable pub add : ℕ → ℕ → ℕ → ℕ
unfolding get_and_add
add w x value = (get_and_add w x value).1

unfoldable pub increment : ℕ → ℕ → ℕ
unfolding increment_and_get
increment w value = (increment_and_get w value).1

unfoldable pub decrement : ℕ → ℕ → ℕ
unfolding decrement_and_get
decrement w value = (decrement_and_get w value).1
