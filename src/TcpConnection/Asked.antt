-- ===== src/TcpConnection/Asked.antt =====
-- What the user's callbacks ask of a connection keeps its invariant (SrcFile/TcpConnection.c).
use simple_net_base.Prelude.{
  ℕ, ◌<◌, ◌≡◌, ◌∙◌, refl, ap, sym, Bool, true, false, not, ◌||◌, List, [], ◌∷◌, ◌++◌, arith, length,
  Result, Returns, Returns-mono, Returns-bind, ◌==◌, Bool-cases, inl, inr,
}
use simple_net_base.Buffer.{BufferOps}
use simple_net_base.Socket.{Written}
use simple_net_base.Channel.{is_writing, is_reading, want_reading, unwant_reading}
use simple_net_base.Channel.Masks.{want_reading-Wants, unwant_reading-Wants}
use simple_net_base.Functor.{Functor}
use simple_net_base.EventLoop.{queue_in_loop, run_in_loop}
use simple_net_base.TcpConnection.{
  Conn, State, connected, disconnecting, disconnected, size_mod, is_disconnected, is_open,
  is_connected, Call, enable_reading, disable_reading, queue, send, send_in_loop,
}
use simple_net_base.TcpConnection.Requests.{
  Request, sends, shuts_down, closes_by_force, closes_later, starts_read, stops_read, takes_input,
  queues, User, shutdown_in_loop, shutdown, force_close, force_close_with_delay, start_read_in_loop,
  stop_read_in_loop, run_request, run_requests, callback,
}
use simple_net_base.TcpConnection.Events.{
  applied, with_events-applied, want_reading-Keeps, unwant_reading-Keeps,
}
use simple_net_base.TcpConnection.Stream.{IsLegal}
use simple_net_base.TcpConnection.Interest.{Inv, Inv-same, applied-Inv, send_in_loop-Kept}

module _ (B : BufferOps) where
  -- Requests that a connection, disconnected (`gone`) or not, is fit for: a shutdown and a start of
  -- reading want one that is not, and a message fits a size_t.
  abbrev pub IsProper : Bool → Request B → Type 0
  IsProper gone (sends bytes w) = IsLegal w (length bytes) × (length bytes < size_mod)
  IsProper gone shuts_down = gone ≡ false
  IsProper gone starts_read = gone ≡ false
  IsProper gone _ = Unit {0}

  abbrev pub AllProper : Bool → List (Request B) → Type 0
  AllProper gone [] = Unit {0}
  AllProper gone (r ∷ rs) = IsProper gone r × AllProper gone rs

  abbrev pub IsPolite : User B → Type 0
  IsPolite user = (k : Call) (c : Conn B) → AllProper (is_disconnected c.state) (user k c)

  -- The invariant, and whether the connection is gone.
  abbrev pub Good : Bool → Conn B → Type 0
  Good gone c = Inv B c × (is_disconnected c.state ≡ gone)

  -- A functor is queued instead of a call when the caller is in another thread.
  run_in_loop-Good :
      (gone : Bool) (caller : ℕ) (f : Functor) (c : Conn B) (now : Result (Conn B))
      → Returns (Good gone) now
      → Good gone c
      → Returns (Good gone) (run_in_loop caller f now (λ l. record c { loop = l }) c.loop)
  unfolding run_in_loop
  run_in_loop-Good gone caller f c now h g = elim (Bool-cases (c.loop.thread_id == caller)) [
    | inl here ↦ rw here h
    | inr there ↦ rw there (Inv-same B c _ refl (ground arith) refl refl g.0, g.1)
  ]

  pub send-Good :
      (gone : Bool) (caller : ℕ) (bytes : List ℕ) (w : Written) (c : Conn B)
      → IsProper gone (sends bytes w)
      → Good gone c
      → Returns (Good gone) (send B caller bytes w c)
  unfolding send
  send-Good gone caller bytes w c p g = elim (Bool-cases (is_connected c.state)) [
    | inl up ↦ rw up (
        run_in_loop-Good gone caller (Functor.send_in_loop c.id bytes) c (send_in_loop B bytes w c)
          (Returns-mono _ (Good gone) (send_in_loop B bytes w c)
            (send_in_loop-Kept B bytes w c p.0 p.1 g.0)
            (λ d (v, e). (v, ap is_disconnected e ∙ g.1)))
          g)
    | inr down ↦ rw down g
  ]

  -- A live connection that starts to disconnect keeps what it has to.
  disconnecting-Good : (c : Conn B) → Good false c → Good false (record c { state = disconnecting })
  unfolding is_disconnected
  disconnecting-Good c (v, e) = (
    record {
      reads = v.reads;
      writes = v.writes;
      tracked = v.tracked;
      masked = v.masked;
      waiting = v.waiting;
      flushing = λ a b. v.flushing e b;
      quiet = λ a. cc;
    },
    refl,
  )

  pub shutdown_in_loop-Good :
      (gone : Bool) (c : Conn B) → Good gone c → Returns (Good gone) (shutdown_in_loop B c)
  unfolding shutdown_in_loop
  shutdown_in_loop-Good gone c g = elim (Bool-cases (is_writing c.channel)) [
    | inl busy ↦ rw busy g
    | inr idle ↦
        rw idle (Inv-same B c (record c { write_shut = true }) refl refl refl refl g.0, g.1)
  ]

  pub shutdown-Good :
      (caller : ℕ) (c : Conn B) → Good false c → Returns (Good false) (shutdown B caller c)
  unfolding shutdown
  shutdown-Good caller c g =
      let c2 : Conn B = record c { state = disconnecting } in
      run_in_loop-Good false caller (Functor.shutdown_in_loop c.id) c2 (shutdown_in_loop B c2)
        (shutdown_in_loop-Good false c2 (disconnecting-Good c g)) (disconnecting-Good c g)

  live_of_open :
      (s : State) (gone : Bool) → is_open s ≡ true → is_disconnected s ≡ gone → gone ≡ false
  unfolding is_open is_disconnected
  live_of_open disconnected gone o e = cc
  live_of_open connected gone o e = sym e
  live_of_open disconnecting gone o e = sym e
  live_of_open State.connecting gone o e = sym e

  pub force_close-Good :
      (gone : Bool) (caller : ℕ) (c : Conn B)
      → Good gone c
      → Returns (Good gone) (force_close B caller c)
  unfolding force_close queue_in_loop
  force_close-Good gone caller c g = elim (Bool-cases (is_open c.state)) [
    | inl opened ↦
        let live = live_of_open c.state gone opened g.1 in
        let c2 : Conn B = record c { state = disconnecting } in
        rw (opened, live)
          (
            Inv-same B c2 _ refl (ground arith) refl refl (disconnecting-Good c (rw live at g)).0,
            unfold is_disconnected in refl,
          )
    | inr shut ↦ rw shut g
  ]

  pub force_close_with_delay-Good :
      (gone : Bool) (seconds : ℕ) (c : Conn B)
      → Good gone c
      → Returns (Good gone) (force_close_with_delay B seconds c)
  unfolding force_close_with_delay
  force_close_with_delay-Good gone seconds c g = elim (Bool-cases (is_open c.state)) [
    | inl opened ↦
        let live = live_of_open c.state gone opened g.1 in
        let c2 : Conn B = record c { state = disconnecting } in
        rw (opened, live)
          (
            Inv-same B c2 (record c2 { delayed_closes = c.delayed_closes ++ seconds ∷ [] }) refl
                refl refl refl (disconnecting-Good c (rw live at g)).0,
            unfold is_disconnected in refl,
          )
    | inr shut ↦ rw shut g
  ]

  pub start_read_in_loop-Good :
      (c : Conn B) → Good false c → Returns (Good false) (start_read_in_loop B c)
  unfolding start_read_in_loop enable_reading applied
  start_read_in_loop-Good c (v, e) =
      elim (Bool-cases (not c.reading || not (is_reading c.channel))) [
        | inl needed ↦
            rw (needed, with_events-applied B want_reading (want_reading-Keeps B) c v.tracked)
              (
                Inv-same B (applied B want_reading c) _ refl refl refl refl (
                    applied-Inv B want_reading c true v.writes (want_reading-Keeps B) v.tracked
                      (want_reading-Wants c.channel v.reads v.writes v.masked) v.waiting v.flushing
                      (λ gone. cc)),
                e,
              )
        | inr done ↦ rw done (v, e)
      ]

  pub stop_read_in_loop-Good :
      (gone : Bool) (c : Conn B) → Good gone c → Returns (Good gone) (stop_read_in_loop B c)
  unfolding stop_read_in_loop disable_reading applied
  stop_read_in_loop-Good gone c (v, e) = elim (Bool-cases (c.reading || is_reading c.channel)) [
    | inl needed ↦
        rw (needed, with_events-applied B unwant_reading (unwant_reading-Keeps B) c v.tracked)
          (
            Inv-same B (applied B unwant_reading c) _ refl refl refl refl (
                applied-Inv B unwant_reading c false v.writes (unwant_reading-Keeps B) v.tracked
                  (unwant_reading-Wants c.channel v.reads v.writes v.masked) v.waiting v.flushing
                  (λ is_gone. (refl, (v.quiet is_gone).1))),
            e,
          )
    | inr done ↦ rw done (v, e)
  ]

  pub run_request-Good :
      (gone : Bool) (r : Request B) (c : Conn B)
      → IsProper gone r
      → Good gone c
      → Returns (Good gone) (run_request B r c)
  unfolding run_request queue_in_loop queue
  run_request-Good gone (sends bytes w) c p g = send-Good gone c.loop.thread_id bytes w c p g
  run_request-Good gone shuts_down c p g = rw p (shutdown-Good c.loop.thread_id c (rw p at g))
  run_request-Good gone closes_by_force c p g = force_close-Good gone c.loop.thread_id c g
  run_request-Good gone (closes_later s) c p g = force_close_with_delay-Good gone s c g
  run_request-Good gone starts_read c p g = rw p (
      run_in_loop-Good false c.loop.thread_id (Functor.start_read_in_loop c.id) c
        (start_read_in_loop B c) (start_read_in_loop-Good c (rw p at g)) (rw p at g))
  run_request-Good gone stops_read c p g =
      run_in_loop-Good gone c.loop.thread_id (Functor.stop_read_in_loop c.id) c
        (stop_read_in_loop B c) (stop_read_in_loop-Good gone c g) g
  run_request-Good gone (takes_input n) c p g = (
    Inv-same B c (record c { input_buffer = B.retrieve n c.input_buffer }) refl refl refl refl g.0,
    g.1,
  )
  run_request-Good gone (queues f) c p g = (Inv-same B c _ refl (ground arith) refl refl g.0, g.1)

  pub run_requests-Good :
      (gone : Bool) (rs : List (Request B)) (c : Conn B)
      → AllProper gone rs
      → Good gone c
      → Returns (Good gone) (run_requests B rs c)
  unfolding run_requests
  run_requests-Good gone [] c p g = g
  run_requests-Good gone (r ∷ rs) c p g =
      Returns-bind (Good gone) (Good gone) (run_request B r c) (run_requests B rs)
        (run_request-Good gone r c p.0 g) (λ d q. run_requests-Good gone rs d p.1 q)

  pub callback-Good :
      (user : User B) (k : Call) (c : Conn B) (gone : Bool)
      → IsPolite user
      → Good gone c
      → Returns (Good gone) (callback B user k c)
  unfolding callback
  callback-Good user k c gone polite g =
      let c' : Conn B = record c { calls = c.calls ++ k ∷ [] } in
      run_requests-Good gone (user k c') c' (rw (← g.1) (polite k c'))
        (Inv-same B c c' refl refl refl refl g.0, g.1)
