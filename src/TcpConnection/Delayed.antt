-- ===== src/TcpConnection/Delayed.antt =====
-- `forceCloseWithDelay` of SrcFile/TcpConnection.c, from the call to the end: the timer calls a weak callback
-- (SrcFile/WeakCallback.h) on `forceClose`, which queues `forceCloseInLoop`.
use simple_net_base.Prelude.{
  ℕ, ◌≤◌, ◌≡◌, ◌∙◌, refl, sym, true, false, [], ◌∷◌, ◌++◌, some, arith, lookup, Result, ok, Returns,
  Bool-cases, inl, inr, ◌⊎◌, subst, Returns-ok,
}
use simple_net_base.Prelude.Assoc
use simple_net_base.Buffer.{BufferOps}
use simple_net_base.EventLoop.{EventLoop, queue_in_loop}
use simple_net_base.Functor.{Functor}
use simple_net_base.WeakCallback.{Shared, Store, WeakCallback, make_weak_callback, call}
use simple_net_base.WeakCallback.Held.{adjusted, call-adjusted}
use simple_net_base.TcpConnection.{
  Conn, State, connected, connecting, disconnected, disconnecting, is_open, is_connecting,
  is_connected, is_disconnecting, is_disconnected,
}
use simple_net_base.TcpConnection.Requests.{User, force_close, force_close_with_delay, set_state}
use simple_net_base.TcpConnection.Handlers.{force_close_in_loop, destroy}
use simple_net_base.TcpConnection.Interest.{Inv}
use simple_net_base.TcpConnection.Asked.{IsPolite, force_close-Good, force_close_with_delay-Good}
use simple_net_base.TcpConnection.Handled.{handle_close-Good}
use simple_net_base.TcpConnection.Steps.{Reach, Reach-Inv}
use simple_net_base.TcpConnection.Started.{IsStarted, Reach-IsStarted}

queue_in_loop-queues :
    (caller : ℕ) (f : Functor) (l : EventLoop Functor)
    → (queue_in_loop caller f l).pending_functors ≡ l.pending_functors ++ f ∷ []
unfolding queue_in_loop
queue_in_loop-queues caller f l = ground arith

module _ (B : BufferOps) where
  -- What `runAfter` is given, to be called in the loop's thread.
  unfoldable pub delayed : Conn B → WeakCallback (Conn B)
  delayed c = make_weak_callback c.id (force_close B c.loop.thread_id)

  module _ (user : User B) where
    -- The timer has expired.
    unfoldable pub expire : WeakCallback (Conn B) → Store (Conn B) → Result (Store (Conn B))
    expire w s = call (destroy B user) w s

    abbrev pub IsClosed : Conn B → Type 0
    IsClosed c = Inv B c × (is_disconnected c.state ≡ true)

    closed_of_started :
        (s : State) → is_connecting s ≡ false → is_open s ≡ false → is_disconnected s ≡ true
    unfolding is_connecting is_open is_connected is_disconnecting is_disconnected
    closed_of_started disconnected h k = refl
    closed_of_started connecting h k = cc
    closed_of_started connected h k = cc
    closed_of_started disconnecting h k = cc

    started_of_open : (s : State) → is_open s ≡ true → is_connecting s ≡ false
    unfolding is_connecting is_open is_connected is_disconnecting
    started_of_open disconnected h = cc
    started_of_open connecting h = cc
    started_of_open connected h = refl
    started_of_open disconnecting h = refl

    module _ (polite : IsPolite B user) where
      force_close_in_loop-IsClosed :
          (c : Conn B) → Inv B c → IsStarted B c → Returns IsClosed (force_close_in_loop B user c)
      unfolding force_close_in_loop
      force_close_in_loop-IsClosed c v h = elim (Bool-cases (is_open c.state)) [
        | inl opened ↦ rw opened (handle_close-Good B user polite c opened v)
        | inr shut ↦ rw shut (v, closed_of_started c.state h shut)
      ]

      -- The functor is the last one of the queue, or the connection had ended before.
      abbrev pub WillClose : Conn B → Conn B → Type 0
      WillClose c d =
          (d.loop.pending_functors
            ≡ c.loop.pending_functors ++ Functor.force_close_in_loop c.id ∷ [])
          ⊎ IsClosed d

      abbrev Asked : Conn B → Conn B → Type 0
      Asked c d = Inv B d × IsStarted B d × WillClose c d

      force_close-Asked :
          (caller : ℕ) (c : Conn B)
          → Inv B c
          → IsStarted B c
          → Returns (Asked c) (force_close B caller c)
      unfolding force_close set_state is_connecting
      force_close-Asked caller c v h =
          let good = force_close-Good B (is_disconnected c.state) caller c (v, refl) in
          elim (Bool-cases (is_open c.state)) [
            | inl opened ↦ rw opened (
              (rw opened at good).0,
              refl,
              inl (queue_in_loop-queues caller (Functor.force_close_in_loop c.id) c.loop),
            )
            | inr shut ↦ rw shut (v, h, inr (v, closed_of_started c.state h shut))
          ]

      abbrev Waiting : ℕ → Conn B → Conn B → Type 0
      Waiting seconds c d =
          Inv B d × IsStarted B d × (d.delayed_closes ≡ c.delayed_closes ++ seconds ∷ [])

      force_close_with_delay-Waiting :
          (seconds : ℕ) (c : Conn B)
          → Inv B c
          → is_open c.state ≡ true
          → Returns (Waiting seconds c) (force_close_with_delay B seconds c)
      unfolding force_close_with_delay set_state is_connecting
      force_close_with_delay-Waiting seconds c v opened =
          let good = force_close_with_delay-Good B (is_disconnected c.state) seconds c (v, refl) in
          rw opened ((rw opened at good).0, refl, refl)

      -- For a user whose callbacks are as in the invariant's theorem and an open connection `c`: forceCloseWithDelay
      -- leaves a connection `c1` with one more timer; whatever events of the connection come
      -- before the timer expires and before the functor runs, calling the weak callback on a store that has
      -- the connection, with a shared pointer, changes nothing else in the store, the functor is queued
      -- unless the connection has ended already, and after the functor it has.
      pub delayed-closes :
          (seconds : ℕ) (c c1 d e : Conn B) (s : Store (Conn B)) (o : Shared (Conn B))
          → Inv B c
          → is_open c.state ≡ true
          → force_close_with_delay B seconds c ≡ ok c1
          → Reach B user c1 o.object
          → lookup c.id s ≡ some o
          → 1 ≤ o.uses
          → force_close B c.loop.thread_id o.object ≡ ok d
          → Reach B user d e
          → (c1.delayed_closes ≡ c.delayed_closes ++ seconds ∷ [])
            × (expire (delayed c) s ≡ ok (Assoc.insert c.id (record o { object = d }) s))
            × WillClose o.object d
            × Returns IsClosed (force_close_in_loop B user e)
      unfolding expire delayed adjusted
      delayed-closes seconds c c1 d e s o v opened asked r found used expired r2 =
          let (v1, h1, timer) =
            Returns-ok (Waiting seconds c) (force_close_with_delay B seconds c)
              (force_close_with_delay-Waiting seconds c v opened) asked in
          let vo = Reach-Inv B user polite v1 r in
          let ho = Reach-IsStarted B user h1 r in
          let (vd, hd, will) =
            Returns-ok (Asked o.object) (force_close B c.loop.thread_id o.object)
              (force_close-Asked c.loop.thread_id o.object vo ho) expired in
          (
            timer,
            call-adjusted (destroy B user) (delayed c) s
                  (λ x f. let same : x ≡ o = cc in subst (λ y. 1 ≤ y.uses) (sym same) used)
                ∙ rw (found, adjusted, expired) refl,
            will,
            force_close_in_loop-IsClosed e (Reach-Inv B user polite vd r2)
                (Reach-IsStarted B user hd r2),
          )
