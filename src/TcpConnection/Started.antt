-- ===== src/TcpConnection/Started.antt =====
-- No operation of SrcFile/TcpConnection.c but the constructor leaves a connection in kConnecting.
use simple_net_base.Prelude.{
  ℕ, ◌≡◌, refl, Bool, false, not, ◌&&◌, ◌||◌, List, [], ◌∷◌, ◌++◌, ◌==◌, ltb, leb, length, Result,
  assert, Whenever, Whenever-bind, Whenever-after, Whenever-ok, Whenever-if, Bool-cases, inl, inr,
  drop, take,
}
use simple_net_base.Buffer.{BufferOps}
use simple_net_base.Channel.{
  Channel, is_writing, is_reading, want_nothing, unwant_writing, want_reading, want_writing,
  unwant_reading,
}
use simple_net_base.EventLoop
use simple_net_base.EventLoop.{EventLoop, run_in_loop}
use simple_net_base.Functor.{Functor}
use simple_net_base.Socket.{Written, wrote, write_failed, Received, received, read_failed}
use simple_net_base.TcpConnection.{
  Conn, disconnecting, disconnected, is_connecting, is_connected, is_open, is_disconnected,
  is_disconnecting, Call, connection_call, message_call, close_call, with_events, enable_reading,
  disable_reading, enable_writing, disable_writing, disable_all, queue, queue_if, write_now,
  try_write, ensure_writing, warn_high_water, keep_rest, send_rest, send_in_loop, send,
  readable_bytes,
}
use simple_net_base.TcpConnection.Requests.{
  User, Request, sends, shuts_down, closes_by_force, closes_later, starts_read, stops_read,
  takes_input, queues, set_state, shutdown_in_loop, truth, shutdown, force_close,
  force_close_with_delay, start_read_in_loop, stop_read_in_loop, start_read, stop_read, run_request,
  run_requests, callback,
}
use simple_net_base.TcpConnection.Handlers.{
  handle_close, force_close_in_loop, handle_error, handle_read, handle_write, written_out,
  retrieved, shutdown_if_waiting, connect_established,
}
use simple_net_base.TcpConnection.Events.{queue_if-state}
use simple_net_base.TcpConnection.Steps.{
  Event, establishes, asks_for, runs_send, runs_shutdown, runs_force_close, runs_start_read,
  runs_stop_read, reads, writes, hangs_up, errs, step, Reach, here, next,
}

module _ (B : BufferOps) where
  abbrev pub IsStarted : Conn B → Type 0
  IsStarted c = is_connecting c.state ≡ false

  abbrev Starts : Result (Conn B) → Type 0
  Starts = Whenever IsStarted

  with_events-Starts :
      (f : Channel → Channel) (c : Conn B) → IsStarted c → Starts (with_events B f c)
  unfolding with_events
  with_events-Starts f c h =
      Whenever-after IsStarted (EventLoop.update_channel (f c.channel) c.loop) _ (λ x. h)

  run_in_loop-Starts :
      (caller : ℕ) (f : Functor) (c : Conn B) (now : Result (Conn B))
      → Starts now
      → IsStarted c
      → Starts (run_in_loop caller f now (λ l. record c { loop = l }) c.loop)
  unfolding run_in_loop
  run_in_loop-Starts caller f c now p h = Whenever-if IsStarted (c.loop.thread_id == caller) _ _ p h

  queue_if-Starts :
      (b : Bool) (f : Functor) (c : Conn B) → IsStarted c → IsStarted (queue_if B b f c)
  queue_if-Starts b f c h = rw (queue_if-state B b f c) h

  try_write-Starts :
      (bytes : List ℕ) (w : Written) (c : Conn B)
      → IsStarted c
      → IsStarted (try_write B bytes w c).0
  unfolding try_write write_now
  try_write-Starts bytes (wrote n) c h =
      elim (Bool-cases (not (is_writing c.channel) && readable_bytes B c == 0)) [
        | inl direct ↦
            rw direct (queue_if-Starts _ _ (record c { sent = c.sent ++ take n bytes }) h)
        | inr later ↦ rw later h
      ]
  try_write-Starts bytes (write_failed e) c h =
      elim (Bool-cases (not (is_writing c.channel) && readable_bytes B c == 0)) [
        | inl direct ↦ rw direct h
        | inr later ↦ rw later h
      ]

  ensure_writing-Starts : (c : Conn B) → IsStarted c → Starts (ensure_writing B c)
  unfolding ensure_writing enable_writing
  ensure_writing-Starts c h =
      Whenever-if IsStarted (not (is_writing c.channel)) _ _ (with_events-Starts want_writing c h) h

  send_rest-Starts :
      (bytes : List ℕ) (x : Conn B × ℕ × ℕ × Bool) → IsStarted x.0 → Starts (send_rest B bytes x)
  unfolding send_rest keep_rest warn_high_water
  send_rest-Starts bytes (c, nwrote, remaining, fault_error) h =
      let warned : Conn B = warn_high_water B remaining c in
      let kept : Conn B = record warned {
        output_buffer = B.append (take remaining (drop nwrote bytes)) warned.output_buffer;
      } in
      Whenever-after IsStarted (assert (leb remaining (length bytes))) _ (λ u.
        Whenever-if IsStarted (not fault_error && ltb 0 remaining) _ _
          (ensure_writing-Starts kept (rw (queue_if-state B _ _ c) h)) h)

  send_in_loop-Starts :
      (bytes : List ℕ) (w : Written) (c : Conn B) → IsStarted c → Starts (send_in_loop B bytes w c)
  unfolding send_in_loop
  send_in_loop-Starts bytes w c h =
      Whenever-if IsStarted (is_disconnected c.state) _ _ h
        (send_rest-Starts bytes (try_write B bytes w c) (try_write-Starts bytes w c h))

  shutdown_in_loop-Starts : (c : Conn B) → IsStarted c → Starts (shutdown_in_loop B c)
  unfolding shutdown_in_loop
  shutdown_in_loop-Starts c h = elim (Bool-cases (is_writing c.channel)) [
    | inl busy ↦ rw busy h
    | inr idle ↦ rw idle h
  ]

  start_read_in_loop-Starts : (c : Conn B) → IsStarted c → Starts (start_read_in_loop B c)
  unfolding start_read_in_loop enable_reading
  start_read_in_loop-Starts c h =
      Whenever-if IsStarted (not c.reading || not (is_reading c.channel)) _ _
        (Whenever-bind IsStarted IsStarted (enable_reading B c) _
          (with_events-Starts want_reading c h) (λ d k. k))
        h

  stop_read_in_loop-Starts : (c : Conn B) → IsStarted c → Starts (stop_read_in_loop B c)
  unfolding stop_read_in_loop disable_reading
  stop_read_in_loop-Starts c h =
      Whenever-if IsStarted (c.reading || is_reading c.channel) _ _
        (Whenever-bind IsStarted IsStarted (disable_reading B c) _
          (with_events-Starts unwant_reading c h) (λ d k. k))
        h

  run_request-Starts : (r : Request B) (c : Conn B) → IsStarted c → Starts (run_request B r c)
  unfolding run_request send shutdown force_close force_close_with_delay start_read stop_read queue
      set_state truth is_connecting
  run_request-Starts (sends bytes w) c h =
      Whenever-if IsStarted (is_connected c.state) _ _
        (run_in_loop-Starts _ _ c _ (send_in_loop-Starts bytes w c h) h) h
  run_request-Starts shuts_down c h =
      let c2 : Conn B = record c { state = disconnecting } in
      run_in_loop-Starts _ _ c2 _ (shutdown_in_loop-Starts c2 refl) refl
  run_request-Starts closes_by_force c h = Whenever-if IsStarted (is_open c.state) _ _ refl h
  run_request-Starts (closes_later s) c h = Whenever-if IsStarted (is_open c.state) _ _ refl h
  run_request-Starts starts_read c h = run_in_loop-Starts _ _ c _ (start_read_in_loop-Starts c h) h
  run_request-Starts stops_read c h = run_in_loop-Starts _ _ c _ (stop_read_in_loop-Starts c h) h
  run_request-Starts (takes_input n) c h = h
  run_request-Starts (queues f) c h = h

  run_requests-Starts :
      (rs : List (Request B)) (c : Conn B) → IsStarted c → Starts (run_requests B rs c)
  unfolding run_requests
  run_requests-Starts [] c h = h
  run_requests-Starts (r ∷ rs) c h =
      Whenever-bind IsStarted IsStarted (run_request B r c) _ (run_request-Starts r c h)
        (run_requests-Starts rs)

  module _ (user : User B) where
    callback-Starts : (k : Call) (c : Conn B) → IsStarted c → Starts (callback B user k c)
    unfolding callback
    callback-Starts k c h =
        run_requests-Starts (user k _) (record c { calls = c.calls ++ k ∷ [] }) h

    handle_close-Starts : (c : Conn B) → Starts (handle_close B user c)
    unfolding handle_close disable_all set_state is_connecting
    handle_close-Starts c = Whenever-after IsStarted (assert (is_open c.state)) _ (λ u.
        Whenever-bind IsStarted IsStarted (disable_all B (set_state B disconnected c)) _
          (with_events-Starts want_nothing (record c { state = disconnected }) refl)
          (λ d h.
            Whenever-bind IsStarted IsStarted (callback B user connection_call d) _
              (callback-Starts connection_call d h) (callback-Starts close_call)))

    shutdown_if_waiting-Starts : (c : Conn B) → IsStarted c → Starts (shutdown_if_waiting B user c)
    unfolding shutdown_if_waiting
    shutdown_if_waiting-Starts c h =
        Whenever-if IsStarted (is_disconnecting c.state) _ _ (shutdown_in_loop-Starts c h) h

    handle_write-Starts :
        (w : Written) (c : Conn B) → IsStarted c → Starts (handle_write B user w c)
    unfolding handle_write written_out shutdown_if_waiting disable_writing retrieved
    handle_write-Starts (wrote n) c h =
        let c1 : Conn B = retrieved B user n c in
        Whenever-if IsStarted (is_writing c.channel) _ _
          (Whenever-if IsStarted (ltb 0 n) _ _
            (Whenever-if IsStarted (readable_bytes B c1 == 0) _ _
              (Whenever-bind IsStarted IsStarted (disable_writing B c1) _
                (with_events-Starts unwant_writing c1 h)
                (λ d k.
                  shutdown_if_waiting-Starts _
                    (queue_if-Starts d.has_write_complete (Functor.write_complete d.id) d k)))
              h)
            h)
          h
    handle_write-Starts (write_failed e) c h = h

    handle_read-Starts : (r : Received) (c : Conn B) → IsStarted c → Starts (handle_read B user r c)
    unfolding handle_read handle_error
    handle_read-Starts (received []) c h = handle_close-Starts c
    handle_read-Starts (received (x ∷ xs)) c h = callback-Starts message_call _ h
    handle_read-Starts (read_failed e) c h = h

    step-Starts : (x : Event B) (c : Conn B) → IsStarted c → Starts (step B user x c)
    unfolding step connect_established force_close_in_loop handle_error
    step-Starts establishes c h = rw h tt
    step-Starts (asks_for r) c h = run_request-Starts r c h
    step-Starts (runs_send bytes w) c h = send_in_loop-Starts bytes w c h
    step-Starts runs_shutdown c h = shutdown_in_loop-Starts c h
    step-Starts runs_force_close c h =
        Whenever-if IsStarted (is_open c.state) _ _ (handle_close-Starts c) h
    step-Starts runs_start_read c h = start_read_in_loop-Starts c h
    step-Starts runs_stop_read c h = stop_read_in_loop-Starts c h
    step-Starts (reads r) c h = handle_read-Starts r c h
    step-Starts (writes w) c h = handle_write-Starts w c h
    step-Starts hangs_up c h = handle_close-Starts c
    step-Starts errs c h = h

    pub Reach-IsStarted : {c d : Conn B} → IsStarted c → Reach B user c d → IsStarted d
    Reach-IsStarted h here = h
    Reach-IsStarted h (next x r can e) =
        Whenever-ok IsStarted (step B user x _) (step-Starts x _ (Reach-IsStarted h r)) e
