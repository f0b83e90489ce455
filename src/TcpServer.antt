-- ===== src/TcpServer.antt =====
-- SrcFile/TcpServer.h and SrcFile/TcpServer.c: connections from the acceptor to the loops of the pool and
-- back. A connection is known by its number, from which its name is made; what it does on its own loop
-- is in TcpConnection; Names is about the names.
use simple_net_base.Prelude.{
  ℕ, ◌+◌, Bool, true, false, not, List, [], ◌∷◌, ◌++◌, Option, none, some, Result, ok, ◌>>=◌, ◌>>◌,
  assert, lookup, is_none, if◌then◌else◌,
}
use simple_net_base.Prelude.Assoc
use simple_net_base.EventLoopThreadPool
use simple_net_base.EventLoopThreadPool.{EventLoopThreadPool, get_next_loop}
use simple_net_base.Functor.{Functor}
use simple_net_base.Prelude.Decimal.{decimal, snprintf}
pub mod Handover
pub mod Names
pub mod Accepting
pub mod Ending
pub mod Lifetime

-- What `connections_` holds of a connection: its descriptor and its loop.
pub record Handle : Type 0 where
  pub fd : ℕ
  pub io_loop : ℕ

-- A functor given to `runInLoop` or `queueInLoop` of a loop.
pub record Post : Type 0 where
  pub to : ℕ
  pub functor : Functor

pub record TcpServer : Type 0 where
  pub loop : ℕ  -- the acceptor's loop
  pub pool : EventLoopThreadPool
  pub started : Bool
  pub listenning : Bool
  pub next_conn_id : ℕ
  pub connections : List (ℕ × Handle)
  pub posts : List Post  -- the latest first

unfoldable pub init : ℕ → EventLoopThreadPool → TcpServer
init loop pool = record {
  loop = loop;
  pool = pool;
  started = false;
  listenning = false;
  next_conn_id = 1;
  connections = [];
  posts = [];
}

unfoldable pub post : ℕ → Functor → TcpServer → TcpServer
post to f s = record s { posts = record { to = to; functor = f } ∷ s.posts }

-- `start`, with the loops that the pool's threads answer with.
unfoldable pub start : (ℕ → ℕ) → Bool → TcpServer → Result TcpServer
unfolding post
start start_loop has_callback s =
    let first = EventLoopThreadPool.start start_loop has_callback s.pool >>= λ p.
    assert (not s.listenning)
    >> ok (post s.loop (Functor.listen s.loop) (record s { started = true; pool = p })) in
    if s.started then ok s else first

-- The name of the connection with the number `id`, for the server's name and its `ipPort_`.
unfoldable pub conn_name : List ℕ → List ℕ → ℕ → List ℕ
unfolding snprintf
conn_name name ip_port id = name ++ snprintf 64 (b'-' ∷ (ip_port ++ b'#' ∷ decimal id))

unfoldable pub new_connection : ℕ → TcpServer → Result TcpServer
unfolding post
new_connection fd s = do
  (io_loop, p) ← get_next_loop s.pool
  let id = s.next_conn_id
  let h : Handle = record { fd = fd; io_loop = io_loop }
  ok (
      post io_loop (Functor.connect_established id) (record s {
        pool = p;
        next_conn_id = id + 1;
        connections = Assoc.insert id h s.connections;
      }))

-- `removeConnectionInLoop` of a connection with its number and its loop.
unfoldable pub remove_connection_in_loop : ℕ → ℕ → TcpServer → Result TcpServer
unfolding post
remove_connection_in_loop id io_loop s = do
  assert (not (is_none (lookup id s.connections)))
  ok (
      post io_loop (Functor.connect_destroyed id)
        (record s { connections = Assoc.erase id s.connections }))

-- `removeConnection`, which each connection has for its close callback.
unfoldable pub remove_connection : ℕ → TcpServer → TcpServer
unfolding post
remove_connection id s = post s.loop (Functor.remove_connection_in_loop id) s

unfoldable pub set_thread_num : ℕ → TcpServer → TcpServer
set_thread_num n s = record s { pool = EventLoopThreadPool.set_thread_num n s.pool }

-- The loop of `~TcpServer`. It resets the pointer of each entry of the map, here the entry goes: nothing looks at the
-- map any more before it is destroyed.
unfoldable pub destroy_all : List (ℕ × Handle) → TcpServer → TcpServer
unfolding post
destroy_all [] s = s
destroy_all ((id, h) ∷ rest) s = destroy_all rest (
    post h.io_loop (Functor.connect_destroyed id)
      (record s { connections = Assoc.erase id s.connections }))

unfoldable pub destroy : TcpServer → TcpServer
unfolding destroy_all
destroy s = destroy_all s.connections s
