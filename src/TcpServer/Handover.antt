-- ===== src/TcpServer/Handover.antt =====
-- Each connection of SrcFile/TcpServer.c is established once and destroyed once.
use simple_net_base.Prelude.{
  ℕ, ◌+◌, ◌≤◌, ◌≡◌, Bool, true, false, not, List, [], ◌∷◌, arith, lookup, lookup-insert,
  lookup-erase, ◌==◌, leb, ltb, ◌&&◌, is_none, Result, ok, Returns, Returns-bind,
}
use simple_net_base.Prelude.Assoc
use simple_net_base.EventLoopThreadPool.{EventLoopThreadPool, get_next_loop}
use simple_net_base.EventLoopThreadPool.RoundRobin.{IsStarted, get_next_loop-IsStarted}
use simple_net_base.Functor.{Functor}
use simple_net_base.TcpServer.{
  Post, TcpServer, new_connection, remove_connection, remove_connection_in_loop, post,
}

abbrev establishes : ℕ → Functor → Bool
establishes id (Functor.connect_established i) = i == id
establishes id _ = false

abbrev destroys : ℕ → Functor → Bool
destroys id (Functor.connect_destroyed i) = i == id
destroys id _ = false

abbrev pub one_if : Bool → ℕ
one_if true = 1
one_if false = 0

-- How often the connection has been given to a loop to establish, and to destroy.
abbrev pub established : ℕ → List Post → ℕ
established id [] = 0
established id (p ∷ ps) = one_if (establishes id p.functor) + established id ps

abbrev pub destroyed : ℕ → List Post → ℕ
destroyed id [] = 0
destroyed id (p ∷ ps) = one_if (destroys id p.functor) + destroyed id ps

abbrev pub present : ℕ → TcpServer → ℕ
present id s = one_if (not (is_none (lookup id s.connections)))

abbrev pub numbered : ℕ → TcpServer → ℕ
numbered id s = one_if (leb 1 id && ltb id s.next_conn_id)

-- Every number that has been given out was established once, no other was, and each of them is in the
-- map or has been given to destroy, once.
pub record Inv (s : TcpServer) : Type 0 where
  pub ready : IsStarted s.pool
  pub counted : 1 ≤ s.next_conn_id
  pub up : (id : ℕ) → established id s.posts ≡ numbered id s
  pub down : (id : ℕ) → destroyed id s.posts + present id s ≡ established id s.posts
  pub distinct : Assoc.IsMap s.connections

-- What the server does with connections.
pub data Event : Type 0 where
  accepts : ℕ → Event
  loses : ℕ → Event  -- a connection has closed
  removes : ℕ → ℕ → Event

unfoldable pub step : Event → TcpServer → Result TcpServer
unfolding new_connection remove_connection remove_connection_in_loop
step (accepts fd) s = new_connection fd s
step (loses id) s = ok (remove_connection id s)
step (removes id io_loop) s = remove_connection_in_loop id io_loop s

-- A removal is that of a connection of the map.
abbrev pub CanHappen : Event → TcpServer → Type 0
CanHappen (accepts fd) s = Unit {0}
CanHappen (loses id) s = Unit {0}
CanHappen (removes id io_loop) s = not (is_none (lookup id s.connections)) ≡ true

accepted :
    (fd io_loop : ℕ) (p : EventLoopThreadPool) (s : TcpServer)
    → Inv s
    → IsStarted p
    → Inv (
        post io_loop (Functor.connect_established s.next_conn_id) (record s {
          pool = p;
          next_conn_id = s.next_conn_id + 1;
          connections =
              Assoc.insert s.next_conn_id (record { fd = fd; io_loop = io_loop }) s.connections;
        }))
unfolding post
accepted fd io_loop p s v on = record {
  ready = on;
  counted = omega (arith, v.counted);
  up = λ id. ground (arith, v.up id, v.counted);
  down = λ id. ground (
    arith,
    v.up id,
    v.down id,
    v.counted,
    lookup-insert s.next_conn_id id (record { fd = fd; io_loop = io_loop }) s.connections,
  );
  distinct = Assoc.insert-IsMap s.next_conn_id _ s.connections v.distinct;
}

removed :
    (id io_loop : ℕ) (s : TcpServer)
    → not (is_none (lookup id s.connections)) ≡ true
    → Inv s
    → Inv (
        post io_loop
          (Functor.connect_destroyed id)
          (record s { connections = Assoc.erase id s.connections }))
unfolding post
removed id io_loop s h v = record {
  ready = v.ready;
  counted = v.counted;
  up = λ j. omega (arith, v.up j);
  down = λ j. ground (arith, v.down j, h, lookup-erase id j s.connections);
  distinct = Assoc.erase-IsMap id s.connections v.distinct;
}

lost : (id : ℕ) (s : TcpServer) → Inv s → Inv (remove_connection id s)
unfolding remove_connection
lost id s v = record {
  ready = v.ready;
  counted = v.counted;
  up = λ j. omega (arith, v.up j);
  down = λ j. omega (arith, v.down j);
  distinct = v.distinct;
}

-- On a server with a started pool whose connections are accounted for: accepting a descriptor, hearing
-- that a connection has closed, and removing a connection of the map, meet no failed assertion; afterwards again every number that has been given out
-- has been given to a loop to establish once and no other has, and each of these connections either is in
-- the map or has been given to a loop to destroy, once.
pub step-Handed : (x : Event) (s : TcpServer) → CanHappen x s → Inv s → Returns Inv (step x s)
unfolding step
step-Handed (accepts fd) s h v =
    Returns-bind (λ r. IsStarted r.1) Inv (get_next_loop s.pool) _
      (get_next_loop-IsStarted s.pool v.ready) λ (io_loop, p) on. accepted fd io_loop p s v on
step-Handed (loses id) s h v = lost id s v
step-Handed (removes id io_loop) s h v = rw h (removed id io_loop s h v)
