-- ===== src/EventLoopThreadPool/Names.antt =====
-- The names that SrcFile/EventLoopThreadPool.c gives to its threads.
use simple_net_base.Prelude.{
  ℕ, zero, suc, ◌+◌, ◌-◌, ◌^◌, ◌<◌, ◌≡◌, ◌∙◌, sym, ap, List, [], ◌∷◌, ◌++◌, length, length-append,
  drop, drop-append, take-all, arith,
}
use simple_net_base.Prelude.Decimal.{
  decimal, snprintf, number_from, number_from-decimal, length-decimal,
}

-- The buffer is 32 bytes longer than the pool's name.
unfoldable pub thread_name : List ℕ → ℕ → List ℕ
unfolding snprintf
thread_name name i = snprintf (length name + 32) (name ++ decimal i)

-- The names of the threads that `start` makes.
unfoldable pub thread_names : List ℕ → ℕ → ℕ → List (List ℕ)
unfolding thread_name
thread_names name i zero = []
thread_names name i (suc n) = thread_name name i ∷ thread_names name (i + 1) n

-- No name is cut, so that the number can be read from it.
thread_name-number :
    (name : List ℕ) (i : ℕ)
    → i < 2 ^ 31
    → number_from 0 (drop (length name) (thread_name name i)) ≡ i
unfolding thread_name snprintf
thread_name-number name i few =
    rw
      (
        take-all (length name + 32 - 1) (name ++ decimal i) (
            omega (arith, length-append name (decimal i), length-decimal 9 i (omega (arith, few)))),
        drop-append name (decimal i),
      )
      (number_from-decimal i)

-- Two threads of a pool whose numbers are values of int have the same name only if they have the same number.
pub thread_name-injective :
    (name : List ℕ) (i j : ℕ)
    → i < 2 ^ 31
    → j < 2 ^ 31
    → thread_name name i ≡ thread_name name j
    → i ≡ j
thread_name-injective name i j hi hj same =
    sym (thread_name-number name i hi)
    ∙ ap (λ s. number_from 0 (drop (length name) s)) same
    ∙ thread_name-number name j hj
