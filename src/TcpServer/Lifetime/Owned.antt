-- ===== src/TcpServer/Lifetime/Owned.antt =====
-- A connection of SrcFile/TcpServer.c is used only while it is alive, and ends in a state in which it may be deleted.
use simple_net_base.Prelude.{
  ℕ, ◌+◌, ◌-◌, ◌<◌, ◌≡◌, inl, inr, refl, true, false, not, ◌&&◌, ◌||◌, [], ◌==◌, if◌then◌else◌,
  arith, ok, Returns, Returns-ok, Returns-mono, Bool-cases,
}
use simple_net_base.TcpConnection.{
  State, connected, disconnecting, is_connecting, is_connected, is_disconnected, is_disconnecting,
  is_open,
}
use simple_net_base.TcpServer.Lifetime.{
  Life, init, Task, destroys, closes, tells, borrows, is_shared, is_borrow, holders, post,
  handle_close, force_close, remove_connection_in_loop, Event, takes, runs, rounds_off, begins,
  hangs_up, ends, removes, rounds_off_base, copies, drops, closes_here, asks_to_close, sets_closing,
  queues_close, shuts_here, asks_to_shut, sets_shut, in_calls, asks_to_send, posts, is_told, happen,
  CanHappen,
}
use simple_net_base.TcpServer.Lifetime.Counting.{is_establishing, is_destroying, tally-snoc}
use simple_net_base.TcpServer.Lifetime.Course.{
  Course, Inv, init-Inv, deletable, settle-Inv, steady-Course, handled-Course, takes-Inv,
}
use simple_net_base.TcpServer.Lifetime.Tasks.{ended-Inv, run_next-Inv}

-- A functor is put in the queue.
posted-Course :
    (t : Task) (s : Life)
    → Course s
    → is_establishing t ≡ 0
    → is_destroying t ≡ 0
    → (s.handles ≡ 0 → is_borrow t ≡ 0)
    → Course (post t s)
unfolding post
posted-Course t s v x y z =
    let a = tally-snoc is_establishing s.queue t in
    let b = tally-snoc is_destroying s.queue t in
    let c = tally-snoc is_borrow s.queue t in
    record {
      establishing = omega (arith, v.establishing, a, x);
      destroying = ground (arith, v.destroying, b, y);
      mapped = v.mapped;
      open_registered = v.open_registered;
      new_unregistered = v.new_unregistered;
      quiet = v.quiet;
      lent = λ n. ground (arith, v.lent n, c, z n);
    }

posted-Inv :
    (t : Task) (s : Life)
    → Inv s
    → is_establishing t ≡ 0
    → is_destroying t ≡ 0
    → (s.handles ≡ 0 → is_borrow t ≡ 0)
    → s.alive ≡ true
    → Inv (post t s)
unfolding post holders
posted-Inv t s w x y z up =
    let a = tally-snoc is_shared s.queue t in
    record { course = posted-Course t s w.course x y z; living = ground (arith, w.living, up, a) }

-- An open connection whose state is set to one in which it is open.
reopened-Inv :
    (to : State) (s : Life)
    → is_open to ≡ true
    → Inv s
    → is_open s.state ≡ true
    → Inv (record s { state = to })
unfolding is_connecting is_disconnected is_open is_connected is_disconnecting holders
reopened-Inv to s h w opened =
    let to_live : is_disconnected to ≡ false = ground (arith, h) in
    let to_old : is_connecting to ≡ false = ground (arith, h) in
    let v = w.course in
    let not_gone : is_disconnected s.state ≡ false = ground (arith, opened) in
    let not_new : is_connecting s.state ≡ false = ground (arith, opened) in
    record {
      course = record {
        establishing = ground (arith, v.establishing, not_new, to_old);
        destroying = ground (arith, v.destroying, not_gone, to_live);
        mapped = ground (arith, v.mapped, not_gone, to_live);
        open_registered = λ x. v.open_registered opened;
        new_unregistered = λ x. cc;
        quiet = λ x. cc;
        lent = v.lent;
      };
      living = w.living;
    }

removed-Inv : (s : Life) → Inv s → 0 < s.removals → Returns Inv (remove_connection_in_loop s)
unfolding remove_connection_in_loop post holders
removed-Inv s w some_left =
    let v = w.course in
    let a = tally-snoc is_establishing s.queue destroys in
    let b = tally-snoc is_destroying s.queue destroys in
    let c = tally-snoc is_borrow s.queue destroys in
    let d = tally-snoc is_shared s.queue destroys in
    let there : s.in_map ≡ true = ground (arith, v.mapped, some_left) in
    let up : s.alive ≡ true = ground (arith, w.living, some_left) in
    rw there (record {
      course = record {
        establishing = omega (arith, v.establishing, a);
        destroying = ground (arith, v.destroying, b, some_left);
        mapped = ground (arith, v.mapped, there, some_left);
        open_registered = v.open_registered;
        new_unregistered = v.new_unregistered;
        quiet = v.quiet;
        lent = λ n. omega (arith, v.lent n, c);
      };
      living = ground (arith, up, d);
    })

-- The calls in other threads change while the user has a pointer.
called-Inv :
    (a b c m : ℕ) (s : Life)
    → 0 < s.handles
    → Inv s
    → Inv (record s { closing = a; queuing = b; shutting = c; calling = m })
unfolding holders
called-Inv a b c m s some_handle w = record {
  course = handled-Course s.handles a b c m s w.course (λ n. ground (arith, n, some_handle));
  living = w.living;
}

held_in_call : (s : Life) → Inv s → 0 < in_calls s → 0 < s.handles
held_in_call s w h = ground (arith, w.course.lent, h)

set_open : is_open disconnecting ≡ true
unfolding is_open is_connected is_disconnecting
set_open = refl

set_connected : is_open connected ≡ true
unfolding is_open is_connected is_disconnecting
set_connected = refl

closed_here-Inv : (s : Life) → 0 < s.handles → Inv s → Inv (force_close s)
unfolding force_close holders
closed_here-Inv s h w =
    let up : s.alive ≡ true = ground (arith, w.living, h) in
    elim (Bool-cases (is_open s.state)) [
      | inl opened ↦ rw opened (
          posted-Inv closes (record s { state = disconnecting })
            (reopened-Inv disconnecting s set_open w opened) refl refl (λ n. refl) up)
      | inr shut ↦ rw shut w
    ]

tested-Inv :
    (s : Life)
    → 0 < s.handles
    → Inv s
    → Inv (if is_open s.state then record s { closing = s.closing + 1 } else s)
tested-Inv s h w = elim (Bool-cases (is_open s.state)) [
  | inl opened ↦ rw opened (called-Inv (s.closing + 1) s.queuing s.shutting s.calling s h w)
  | inr shut ↦ rw shut w
]

pub happen-Inv : (x : Event) (s : Life) → CanHappen x s → Inv s → Returns Inv (happen x s)
unfolding happen holders force_close handle_close
happen-Inv takes s h w = takes-Inv s w h
happen-Inv runs s h w = run_next-Inv s w s.batch refl
happen-Inv rounds_off s h w =
    settle-Inv (record s { ran = [] }) (steady-Course [] s.removed s.guarded s w.course)
      (λ more. ground (arith, more, w.living))
happen-Inv begins s h w = record {
  course = steady-Course s.ran s.removed s.alive s w.course;
  living = ground (arith, w.living, h.1);
}
happen-Inv hangs_up s h w =
    let up : s.alive ≡ true = ground (arith, w.living, h.0) in rw h.1 (ended-Inv s w.course up h.1)
happen-Inv ends s h w =
    settle-Inv (record s { guarded = false }) (steady-Course s.ran s.removed false s w.course)
      (λ more. ground (arith, more, w.living))
happen-Inv removes s h w = removed-Inv s w h
happen-Inv rounds_off_base s h w =
    settle-Inv (record s { removed = 0 }) (steady-Course s.ran 0 s.guarded s w.course)
      (λ more. ground (arith, more, w.living))
happen-Inv copies s h w = record {
  course =
      handled-Course (s.handles + 1) s.closing s.queuing s.shutting s.calling s w.course
        (λ n. omega (arith, n));
  living = ground (arith, h);
}
happen-Inv drops s h w =
    settle-Inv (record s { handles = s.handles - 1 })
      (handled-Course (s.handles - 1) s.closing s.queuing s.shutting s.calling s w.course
        (λ n. ground (arith, n, h)))
      (λ more. ground (arith, more, w.living))
happen-Inv closes_here s h w = closed_here-Inv s h w
happen-Inv asks_to_close s h w = tested-Inv s h w
happen-Inv sets_closing s h w =
    called-Inv (s.closing - 1) (s.queuing + 1) s.shutting s.calling
      (record s { state = disconnecting }) (held_in_call s w (omega (arith, h.0)))
      (reopened-Inv disconnecting s set_open w h.1)
happen-Inv queues_close s h w =
    let some_handle = held_in_call s w (omega (arith, h)) in
    let up : s.alive ≡ true = ground (arith, w.living, some_handle) in
    posted-Inv closes (record s { queuing = s.queuing - 1 })
      (called-Inv s.closing (s.queuing - 1) s.shutting s.calling s some_handle w) refl refl
      (λ n. refl) up
happen-Inv shuts_here s h w = reopened-Inv disconnecting s set_open w h.1
happen-Inv asks_to_shut s h w =
    called-Inv s.closing s.queuing (s.shutting + 1) s.calling (record s { state = connected }) h.0
      (reopened-Inv connected s set_connected w h.1)
happen-Inv sets_shut s h w =
    called-Inv s.closing s.queuing (s.shutting - 1) (s.calling + 1)
      (record s { state = disconnecting }) (held_in_call s w (omega (arith, h.0)))
      (reopened-Inv disconnecting s set_open w h.1)
happen-Inv asks_to_send s h w = called-Inv s.closing s.queuing s.shutting (s.calling + 1) s h.0 w
happen-Inv posts s h w =
    let some_handle = held_in_call s w (omega (arith, h)) in
    let up : s.alive ≡ true = ground (arith, w.living, some_handle) in
    posted-Inv borrows (record s { calling = s.calling - 1 })
      (called-Inv s.closing s.queuing s.shutting (s.calling - 1) s some_handle w) refl refl
      (λ n. ground (arith, n, some_handle)) up
happen-Inv is_told s h w = posted-Inv tells s w refl refl (λ n. refl) h.0

-- What can come about after `newConnection`.
pub data Reach : Life → Type 0 where
  start : Reach init
  next : {s t : Life} (x : Event) → Reach s → CanHappen x s → happen x s ≡ ok t → Reach t

pub Reach-Inv : {s : Life} → Reach s → Inv s
Reach-Inv start = init-Inv
Reach-Inv (next {s = s} x r h e) = Returns-ok Inv (happen x s) (happen-Inv x s h (Reach-Inv r)) e

-- As long as there are pointers it is alive, and if not, it is closed and off the poller.
abbrev pub IsOwned : Life → Type 0
IsOwned s =
    (s.alive ≡ not (holders s == 0))
    × ((s.alive || (is_disconnected s.state && not s.registered)) ≡ true)

owned : (s : Life) → Inv s → IsOwned s
owned s w = elim (Bool-cases s.alive) [
  | inl up ↦ (w.living, rw up refl)
  | inr down ↦
      let (a, b) = deletable s w.course (ground (arith, w.living, down)) in
      (w.living, rw (down, a, b) refl)
]

-- After `newConnection`, on two loops, in histories where each assignment of the state by forceClose
-- in another thread, or by shutdown, comes while the connection is still open, which the code's
-- unlocked test does not ensure: whatever has happened to the connection, the next event uses no dead
-- connection and meets no failed assertion, that of a destructor included; afterwards it is alive
-- exactly if it has a shared pointer, and if it is not, it is disconnected and off the poller. The
-- events are the rounds of both loops, the channel's, and the user's calls of forceClose, shutdown and
-- send, while startRead, stopRead and the server's destructor are not among them; forceClose in
-- another thread is three steps and shutdown too, one for each use of the state and one for the
-- functor, between which the loops go on. The user calls through a pointer, and keeps its last pointer
-- during a call and until the functor of a shutdown or a send, which has a bare `this`, has run.
pub Reach-owned : {s : Life} → Reach s → (x : Event) → CanHappen x s → Returns IsOwned (happen x s)
Reach-owned {s} r x h = Returns-mono Inv IsOwned (happen x s) (happen-Inv x s h (Reach-Inv r)) owned
