-- ===== src/Examples/Pools.antt =====
-- A pool of SrcFile/EventLoopThreadPool.c with three loops.
use simple_net_base.Prelude.{◌≡◌, refl, true, [], ◌∷◌, ok}
use simple_net_base.EventLoopThreadPool.{EventLoopThreadPool, get_next_loop, advance}
use simple_net_base.EventLoopThreadPool.RoundRobin.{next_loops, moved}

abbrev pool : EventLoopThreadPool
pool = record {
  base_loop = 1;
  started = true;
  num_threads = 3;
  next = 1;
  loops = 10 ∷ 20 ∷ 30 ∷ [];
  initialized = [];
}

two_loops : next_loops 2 pool ≡ ok (20 ∷ 30 ∷ [], moved pool 2)
unfolding next_loops get_next_loop advance
two_loops = refl
