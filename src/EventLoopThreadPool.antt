-- ===== src/EventLoopThreadPool.antt =====
-- SrcFile/EventLoopThreadPool.h and SrcFile/EventLoopThreadPool.c: the loops that connections are
-- handed to in turn. Loops are given by their addresses.
use simple_net_base.Prelude.{
  ℕ, zero, suc, ◌+◌, ◌%◌, Bool, true, false, not, ◌&&◌, List, [], ◌∷◌, ◌++◌, Option, none, some,
  ◌==◌, leb, if◌then◌else◌, length, get_elem?, Result, ok, fault, dangling, ◌>>=◌, ◌>>◌, assert,
}
pub mod Names
pub mod RoundRobin

pub record EventLoopThreadPool : Type 0 where
  pub base_loop : ℕ
  pub started : Bool
  pub num_threads : ℕ
  pub next : ℕ
  pub loops : List ℕ
  pub initialized : List ℕ  -- the loops that the callback of `start` was called with here

unfoldable pub init : ℕ → EventLoopThreadPool
init base_loop = record {
  base_loop = base_loop;
  started = false;
  num_threads = 0;
  next = 0;
  loops = [];
  initialized = [];
}

unfoldable pub set_thread_num : ℕ → EventLoopThreadPool → EventLoopThreadPool
set_thread_num n p = record p { num_threads = n }

-- The loop of `start`: `start_loop i` is the loop that the thread i answers with.
unfoldable pub start_threads : (ℕ → ℕ) → ℕ → ℕ → List ℕ
start_threads start_loop i zero = []
start_threads start_loop i (suc n) = start_loop i ∷ start_threads start_loop (i + 1) n

unfoldable pub start : (ℕ → ℕ) → Bool → EventLoopThreadPool → Result EventLoopThreadPool
unfolding start_threads
start start_loop has_callback p = do
  assert (not p.started)
  ok (record p {
    started = true;
    loops = p.loops ++ start_threads start_loop 0 p.num_threads;
    initialized =
        if p.num_threads == 0 && has_callback
        then p.initialized ++ p.base_loop ∷ []
        else p.initialized;
  })

-- `loops_[i]`.
abbrev pub loop_at : List ℕ → ℕ → Result ℕ
loop_at ls i = elim (get_elem? ls i) [ none ↦ fault dangling | some l ↦ ok l ]

abbrev pub is_empty : List ℕ → Bool
is_empty [] = true
is_empty (l ∷ ls) = false

unfoldable pub advance : EventLoopThreadPool → EventLoopThreadPool
advance p =
    let next = p.next + 1 in record p { next = if leb (length p.loops) next then 0 else next }

unfoldable pub get_next_loop : EventLoopThreadPool → Result (ℕ × EventLoopThreadPool)
unfolding advance
get_next_loop p = do
  assert p.started
  if is_empty p.loops
      then ok (p.base_loop, p)
      else (loop_at p.loops p.next >>= λ loop. ok (loop, advance p))

unfoldable pub get_loop_for_hash : ℕ → EventLoopThreadPool → Result ℕ
get_loop_for_hash hash_code p =
    if is_empty p.loops then ok p.base_loop else loop_at p.loops (hash_code % length p.loops)

unfoldable pub get_all_loops : EventLoopThreadPool → Result (List ℕ)
get_all_loops p = do assert p.started; ok (if is_empty p.loops then p.base_loop ∷ [] else p.loops)
