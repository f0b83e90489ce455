-- ===== src/Examples/Servers.antt =====
-- A server of SrcFile/TcpServer.c with a pool of two loops and no connection yet.
use simple_net_base.Prelude.{refl, true, [], ◌∷◌, inr, arith, lookup, Returns}
use simple_net_base.EventLoopThreadPool.{EventLoopThreadPool}
use simple_net_base.Functor.{Functor}
use simple_net_base.TcpServer.{TcpServer, destroy}
use simple_net_base.TcpServer.Ending.{Settled, destroy-Settled}
use simple_net_base.TcpServer.Handover.{Inv, accepts, step, step-Handed}

abbrev pair : EventLoopThreadPool
pair = record {
  base_loop = 1;
  started = true;
  num_threads = 2;
  next = 1;
  loops = 10 ∷ 20 ∷ [];
  initialized = [];
}

abbrev pub server : TcpServer
server = record {
  loop = 1;
  pool = pair;
  started = true;
  listenning = true;
  next_conn_id = 1;
  connections = [];
  posts = [];
}

pub server-Inv : Inv server
unfolding lookup
server-Inv = record {
  ready = (refl, inr (omega arith));
  counted = omega arith;
  up = λ id. ground arith;
  down = λ id. refl;
  distinct = tt;
}

step-Handed_example : Returns Inv (step (accepts 30) server)
step-Handed_example = step-Handed (accepts 30) server tt server-Inv

-- The server with one connection.
abbrev serving : TcpServer
serving = record server {
  next_conn_id = 2;
  connections = (1, record { fd = 30; io_loop = 10 }) ∷ [];
  posts = record { to = 10; functor = Functor.connect_established 1 } ∷ [];
}

serving-Inv : Inv serving
unfolding lookup
serving-Inv = record {
  ready = (refl, inr (omega arith));
  counted = omega arith;
  up = λ id. ground arith;
  down = λ id. ground arith;
  distinct = (refl, tt);
}

destroy-Settled_example : Settled serving (destroy serving)
destroy-Settled_example = destroy-Settled serving serving-Inv
