-- ===== src/TcpConnection/Steps.antt =====
-- Every event of a connection of SrcFile/TcpConnection.c as one step, and the invariant over all
-- histories.
use simple_net_base.Prelude.{
  ℕ, ◌<◌, ◌≡◌, ◌≢◌, ◌∙◌, ◌↔◌, refl, ap, sym, Bool, true, false, List, [], ◌∷◌, arith, length, ok,
  Result, Returns, Returns-mono, Returns-ok, ◌==◌, Bool-cases, inl, inr,
}
use simple_net_base.Buffer.{BufferOps}
use simple_net_base.Socket.{Written, Received, received, read_failed}
use simple_net_base.Channel.{is_writing}
use simple_net_base.Channel.Masks.{Wants-tests}
use simple_net_base.TcpConnection.{
  Conn, size_mod, is_disconnected, is_connecting, is_open, message_call, send_in_loop,
}
use simple_net_base.TcpConnection.Requests.{
  Request, User, shutdown_in_loop, start_read_in_loop, stop_read_in_loop, run_request,
}
use simple_net_base.TcpConnection.Handlers.{
  handle_close, force_close_in_loop, handle_error, handle_read, handle_write, connect_established,
}
use simple_net_base.TcpConnection.Stream.{IsLegal}
use simple_net_base.TcpConnection.Interest.{Inv, Inv-same, send_in_loop-Kept}
use simple_net_base.TcpConnection.Asked.{
  IsProper, IsPolite, Good, shutdown_in_loop-Good, start_read_in_loop-Good, stop_read_in_loop-Good,
  run_request-Good, callback-Good,
}
use simple_net_base.TcpConnection.Handled.{handle_close-Good, established-Good, handle_write-Good}

module _ (B : BufferOps) where
  open B use {contents}

  -- What can happen to a connection: the owner establishes it, the user asks for something, a queued
  -- functor runs, or the channel calls a handler; with what the socket answers.
  pub data Event : Type 0 where
    establishes : Event
    asks_for : Request B → Event
    runs_send : List ℕ → Written → Event
    runs_shutdown runs_force_close runs_start_read runs_stop_read : Event
    reads : Received → Event
    writes : Written → Event
    hangs_up errs : Event

  module _ (user : User B) where
    unfoldable pub step : Event → Conn B → Result (Conn B)
    step establishes c = connect_established B user c
    step (asks_for r) c = run_request B r c
    step (runs_send bytes w) c = send_in_loop B bytes w c
    step runs_shutdown c = shutdown_in_loop B c
    step runs_force_close c = force_close_in_loop B user c
    step runs_start_read c = start_read_in_loop B c
    step runs_stop_read c = stop_read_in_loop B c
    step (reads r) c = handle_read B user r c
    step (writes w) c = handle_write B user w c
    step hangs_up c = handle_close B user c
    step errs c = handle_error B user c

    -- The end of the stream and a hang-up come to an open connection only, reading starts and a shutdown
    -- is asked for only before the end, and the socket takes at most what it is offered.
    abbrev pub CanHappen : Event → Conn B → Type 0
    CanHappen establishes c = is_connecting c.state ≡ true
    CanHappen (asks_for r) c = IsProper B (is_disconnected c.state) r
    CanHappen (runs_send bytes w) c = IsLegal w (length bytes) × (length bytes < size_mod)
    CanHappen runs_start_read c = is_disconnected c.state ≡ false
    CanHappen (reads (received [])) c = is_open c.state ≡ true
    CanHappen (writes w) c = IsLegal w (length (contents c.output_buffer))
    CanHappen hangs_up c = is_open c.state ≡ true
    CanHappen _ c = Unit {0}

    pub data Reach (c : Conn B) : Conn B → Type 0 where
      here : Reach c c
      next : {d e : Conn B} (x : Event) → Reach c d → CanHappen x d → step x d ≡ ok e → Reach c e

    module _ (polite : IsPolite B user) where
      from_Good : (gone : Bool) (m : Result (Conn B)) → Returns (Good B gone) m → Returns (Inv B) m
      from_Good gone m h = Returns-mono (Good B gone) (Inv B) m h (λ d g. g.0)

      -- For a user whose callbacks do not ask a disconnected connection to shut down or to start
      -- reading, and send no message of 2^64 bytes: every event that can happen meets no failed
      -- assertion in a state with the invariant, and keeps the invariant.
      pub step-Inv : (x : Event) (c : Conn B) → CanHappen x c → Inv B c → Returns (Inv B) (step x c)
      unfolding step handle_read handle_error force_close_in_loop
      step-Inv establishes c h v = from_Good false _ (established-Good B user polite c h v)
      step-Inv (asks_for r) c h v =
          from_Good (is_disconnected c.state) _
            (run_request-Good B (is_disconnected c.state) r c h (v, refl))
      step-Inv (runs_send bytes w) c h v =
          Returns-mono _ (Inv B) (send_in_loop B bytes w c)
            (send_in_loop-Kept B bytes w c h.0 h.1 v) (λ d g. g.0)
      step-Inv runs_shutdown c h v =
          from_Good _ _ (shutdown_in_loop-Good B (is_disconnected c.state) c (v, refl))
      step-Inv runs_force_close c h v = elim (Bool-cases (is_open c.state)) [
        | inl opened ↦ rw opened (from_Good true _ (handle_close-Good B user polite c opened v))
        | inr shut ↦ rw shut v
      ]
      step-Inv runs_start_read c h v = from_Good false _ (start_read_in_loop-Good B c (v, h))
      step-Inv runs_stop_read c h v =
          from_Good _ _ (stop_read_in_loop-Good B (is_disconnected c.state) c (v, refl))
      step-Inv (reads (received [])) c h v =
          from_Good true _ (handle_close-Good B user polite c h v)
      step-Inv (reads (received (b ∷ bs))) c h v = from_Good (is_disconnected c.state) _ (
          callback-Good B user message_call _ (is_disconnected c.state) polite
            (Inv-same B c _ refl refl refl refl v, refl))
      step-Inv (reads (read_failed e)) c h v = v
      step-Inv (writes w) c h v =
          from_Good (is_disconnected c.state) _
            (handle_write-Good B user polite (is_disconnected c.state) w c h (v, refl))
      step-Inv hangs_up c h v = from_Good true _ (handle_close-Good B user polite c h v)
      step-Inv errs c h v = v

      pub Reach-Inv : {c d : Conn B} → Inv B c → Reach c d → Inv B d
      Reach-Inv v here = v
      Reach-Inv v (next x r h e) = Returns-ok (Inv B) (step x _) (step-Inv x _ h (Reach-Inv v r)) e

      ne_of_some : (xs : List ℕ) → (length xs == 0) ≡ false → xs ≢ []
      ne_of_some xs h e = ground (arith, ap length e)

      -- In every state that a connection with the invariant reaches by such events, as long as it is
      -- not disconnected, it asks the poller for write events if and only if bytes wait in its output
      -- buffer.
      pub Reach-writes :
          {c d : Conn B}
          → Inv B c
          → Reach c d
          → is_disconnected d.state ≡ false
          → (is_writing d.channel ≡ true) ↔ (contents d.output_buffer ≢ [])
      Reach-writes {d = d} v r live =
          let w = Reach-Inv v r in
          let e = (Wants-tests d.channel w.reads w.writes w.masked).1 in
          (
            λ busy. w.waiting (sym e ∙ busy),
            λ some_wait. elim (Bool-cases w.writes) [
              | inl on ↦ e ∙ on
              | inr off ↦ absurd (some_wait (w.flushing live off))
            ],
          )
