-- ===== src/TcpServer/Accepting.antt =====
-- The acceptor of a server (SrcFile/Acceptor.c) and the server (SrcFile/TcpServer.c) together: what is accepted becomes
-- connections on the loops of the pool.
use simple_net_base.Prelude.{
  ℕ, ◌≡◌, ◌∙◌, refl, sym, ap, true, List, [], ◌∷◌, ◌++◌, map, Option, none, length, arith,
  if◌then◌else◌, lookup, Result, ok, ◌>>=◌, Returns, Returns-bind, Returns-bind_eq, Returns-and,
  Returns-mono,
}
use simple_net_base.Prelude.Assoc.{insert-new}
use mathlib.Core.List.{map-append, append_assoc, append-nil}
use simple_net_base.Acceptor
use simple_net_base.Acceptor.{Acceptor, Accepted, accepted, accept_failed}
use simple_net_base.EventLoopThreadPool.{get_next_loop}
use simple_net_base.EventLoopThreadPool.RoundRobin.{IsStarted, get_next_loop-IsStarted, next_loops}
use simple_net_base.TcpServer.{TcpServer, Handle, new_connection, post}
use simple_net_base.TcpServer.Handover.{Inv, accepts, step, step-Handed}

pub record Front : Type 0 where
  pub acceptor : Acceptor
  pub server : TcpServer

-- `Acceptor::handleRead`, whose callback is `newConnection` once the server has set it.
unfoldable pub handle_accept : Accepted × Option ℕ × Option ℕ → Front → Result Front
handle_accept (accepted fd, second, reopened) f =
    let a = Acceptor.handle_read (accepted fd) second reopened f.acceptor in
    let called = new_connection fd f.server >>= λ s. ok (record { acceptor = a; server = s }) in
    if f.acceptor.has_callback then called else ok (record f { acceptor = a })
handle_accept (accept_failed e, second, reopened) f =
    ok (record f { acceptor = Acceptor.handle_read (accept_failed e) second reopened f.acceptor })

-- One event after another.
unfoldable pub accept_all : List (Accepted × Option ℕ × Option ℕ) → Front → Result Front
unfolding handle_accept
accept_all [] f = ok f
accept_all (x ∷ xs) f = handle_accept x f >>= accept_all xs

-- The descriptors among the answers of accept.
abbrev pub descriptors : List (Accepted × Option ℕ × Option ℕ) → List ℕ
descriptors [] = []
descriptors ((accepted fd, second, reopened) ∷ xs) = fd ∷ descriptors xs
descriptors ((accept_failed e, second, reopened) ∷ xs) = descriptors xs

abbrev pub fds : TcpServer → List ℕ
fds s = map (λ x. x.1.fd) s.connections

abbrev pub io_loops : TcpServer → List ℕ
io_loops s = map (λ x. x.1.io_loop) s.connections

new_id : (s : TcpServer) → Inv s → lookup s.next_conn_id s.connections ≡ none
new_id s v = ground (arith, v.up s.next_conn_id, v.down s.next_conn_id)

-- The connections after one more has been accepted.
abbrev Added : ℕ → TcpServer → TcpServer → Type 0
Added fd s t =
    (l : ℕ) × (get_next_loop s.pool ≡ ok (l, t.pool))
    × (t.connections ≡ s.connections ++ (s.next_conn_id, record { fd = fd; io_loop = l }) ∷ [])

new_connection-Added : (fd : ℕ) (s : TcpServer) → Inv s → Returns (Added fd s) (new_connection fd s)
unfolding new_connection post
new_connection-Added fd s v =
    Returns-bind_eq (λ r. IsStarted r.1) (Added fd s) (get_next_loop s.pool) _
      (get_next_loop-IsStarted s.pool v.ready)
      (λ (l, p) e on. (l, e, insert-new s.next_conn_id _ s.connections (new_id s v)))

-- What has come of the answers `xs`.
abbrev pub Spread : List (Accepted × Option ℕ × Option ℕ) → Front → Front → Type 0
Spread xs f g =
    (loops : List ℕ) × (next_loops (length (descriptors xs)) f.server.pool
      ≡ ok (loops, g.server.pool))
    × (fds g.server ≡ fds f.server ++ descriptors xs)
    × (io_loops g.server ≡ io_loops f.server ++ loops)
    × Inv g.server

handle_read-callback :
    (x : Accepted) (second reopened : Option ℕ) (a : Acceptor)
    → (Acceptor.handle_read x second reopened a).has_callback ≡ a.has_callback
unfolding Acceptor.handle_read Acceptor.close Acceptor.refuse Acceptor.set_idle
handle_read-callback (accepted fd) second reopened a = ground arith
handle_read-callback (accept_failed e) second reopened a = ground arith

abbrev Ready : Front → Type 0
Ready f = (f.acceptor.has_callback ≡ true) × Inv f.server

accepted-Added :
    (fd : ℕ) (second reopened : Option ℕ) (f : Front)
    → Ready f
    → Returns
        (λ g. Added fd f.server g.server × Ready g)
        (handle_accept (accepted fd, second, reopened) f)
unfolding handle_accept step
accepted-Added fd second reopened f (on, v) =
    let kept =
      handle_read-callback (accepted fd) second reopened
        (record f.acceptor { has_callback = true }) in
    rw on (
      Returns-bind (λ s. Added fd f.server s × Inv s) (λ g. Added fd f.server g.server × Ready g)
        (new_connection fd f.server) _
        (Returns-and (Added fd f.server) Inv (new_connection fd f.server)
          (new_connection-Added fd f.server v) (step-Handed (accepts fd) f.server tt v))
        (λ s (a, w). (a, (kept, w))))

map-snoc :
    (f : ℕ × Handle → ℕ) (xs zs : List (ℕ × Handle)) (x : ℕ × Handle) (ys : List ℕ)
    → zs ≡ xs ++ x ∷ []
    → map f zs ++ ys ≡ map f xs ++ f x ∷ ys
map-snoc f xs zs x ys e =
    ap (λ m. map f m ++ ys) e
    ∙ ap (λ m. m ++ ys) (map-append f xs (x ∷ []))
    ∙ append_assoc (map f xs) (f x ∷ []) ys

-- One more in front.
Spread-more :
    (fd : ℕ) (second reopened : Option ℕ) (xs : List (Accepted × Option ℕ × Option ℕ))
    (f g h : Front)
    → Added fd f.server g.server
    → Spread xs g h
    → Spread ((accepted fd, second, reopened) ∷ xs) f h
unfolding next_loops
Spread-more fd second reopened xs f g h (l, e, c) (loops, n, a, b, w) = (
  l ∷ loops,
  rw (e, n) refl,
  a ∙ map-snoc (λ x. x.1.fd) f.server.connections g.server.connections _ (descriptors xs) c,
  b ∙ map-snoc (λ x. x.1.io_loop) f.server.connections g.server.connections _ loops c,
  w,
)

-- On a server that has set the acceptor's callback, has a started pool and accounts for its connections: whatever accept
-- and open answer, handling the acceptor's events one after another meets no failed assertion; the map gets one more
-- connection for each accepted descriptor, in that order, and their loops are those that as many calls of
-- getNextLoop in a row return; afterwards the connections are accounted for again.
pub accept_all-Spread :
    (xs : List (Accepted × Option ℕ × Option ℕ)) (f : Front)
    → f.acceptor.has_callback ≡ true
    → Inv f.server
    → Returns (Spread xs f) (accept_all xs f)
unfolding accept_all handle_accept next_loops
accept_all-Spread [] f on v =
    ([], refl, sym (append-nil (fds f.server)), sym (append-nil (io_loops f.server)), v)
accept_all-Spread ((accepted fd, second, reopened) ∷ xs) f on v =
    Returns-bind (λ g. Added fd f.server g.server × Ready g)
      (Spread ((accepted fd, second, reopened) ∷ xs) f)
      (handle_accept (accepted fd, second, reopened) f) (accept_all xs)
      (accepted-Added fd second reopened f (on, v))
      (λ g (a, r).
        Returns-mono (Spread xs g) (Spread ((accepted fd, second, reopened) ∷ xs) f)
          (accept_all xs g) (accept_all-Spread xs g r.0 r.1)
          (λ h s. Spread-more fd second reopened xs f g h a s))
accept_all-Spread ((accept_failed e, second, reopened) ∷ xs) f on v =
    let g : Front = record f {
      acceptor = Acceptor.handle_read (accept_failed e) second reopened f.acceptor;
    } in
    accept_all-Spread xs g (handle_read-callback (accept_failed e) second reopened f.acceptor ∙ on)
      v
