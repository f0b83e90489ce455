-- ===== src/TcpConnection/Requests.antt =====
-- The rest of the interface of SrcFile/TcpConnection.c that changes a connection: shutting down,
-- closing by force, reading on and off; and the user's callbacks, which call it.
use simple_net_base.Prelude.{
  ℕ, Bool, true, false, not, ◌||◌, List, [], ◌∷◌, ◌++◌, if◌then◌else◌, Result, ok, ◌>>=◌,
}
use simple_net_base.Buffer.{BufferOps}
use simple_net_base.Channel.{is_writing, is_reading}
use simple_net_base.EventLoop.{run_in_loop, queue_in_loop}
use simple_net_base.Functor.{Functor}
use simple_net_base.Socket.{Written}
use simple_net_base.TcpConnection.{
  Conn, State, connected, disconnecting, Call, is_open, enable_reading, disable_reading, queue,
  send,
}

module _ (B : BufferOps) where
  unfoldable pub set_state : State → Conn B → Conn B
  set_state s c = record c { state = s }

  unfoldable pub shutdown_in_loop : Conn B → Result (Conn B)
  shutdown_in_loop c = ok (if not (is_writing c.channel) then record c { write_shut = true } else c)

  -- `kConnected` as a condition: its value is 2.
  unfoldable pub truth : State → Bool
  truth State.disconnected = false
  truth _ = true

  -- `if (state_ = kConnected)` assigns: the condition is that of the state assigned.
  unfoldable pub shutdown : ℕ → Conn B → Result (Conn B)
  unfolding set_state shutdown_in_loop truth
  shutdown caller c =
      let c1 = set_state connected c in
      let c2 = set_state disconnecting c1 in
      if truth c1.state
      then run_in_loop caller (Functor.shutdown_in_loop c.id) (shutdown_in_loop c2)
          (λ l. record c2 { loop = l }) c2.loop
      else ok c1

  unfoldable pub force_close : ℕ → Conn B → Result (Conn B)
  unfolding set_state
  force_close caller c =
      if is_open c.state
      then ok (record (set_state disconnecting c) {
        loop = queue_in_loop caller (Functor.force_close_in_loop c.id) c.loop;
      })
      else ok c

  unfoldable pub force_close_with_delay : ℕ → Conn B → Result (Conn B)
  unfolding set_state
  force_close_with_delay seconds c =
      if is_open c.state
      then ok
          (record (set_state disconnecting c) { delayed_closes = c.delayed_closes ++ seconds ∷ [] })
      else ok c

  unfoldable pub start_read_in_loop : Conn B → Result (Conn B)
  start_read_in_loop c =
      let enabled = enable_reading B c >>= λ d. ok (record d { reading = true }) in
      if not c.reading || not (is_reading c.channel) then enabled else ok c

  unfoldable pub stop_read_in_loop : Conn B → Result (Conn B)
  stop_read_in_loop c =
      let disabled = disable_reading B c >>= λ d. ok (record d { reading = false }) in
      if c.reading || is_reading c.channel then disabled else ok c

  unfoldable pub start_read : ℕ → Conn B → Result (Conn B)
  unfolding start_read_in_loop
  start_read caller c =
      run_in_loop caller (Functor.start_read_in_loop c.id) (start_read_in_loop c)
        (λ l. record c { loop = l }) c.loop

  unfoldable pub stop_read : ℕ → Conn B → Result (Conn B)
  unfolding stop_read_in_loop
  stop_read caller c =
      run_in_loop caller (Functor.stop_read_in_loop c.id) (stop_read_in_loop c)
        (λ l. record c { loop = l }) c.loop

  -- What a callback of the user may do with the connection.
  pub data Request : Type 0 where
    sends : List ℕ → Written → Request
    shuts_down : Request
    closes_by_force : Request
    closes_later : ℕ → Request
    starts_read : Request
    stops_read : Request
    takes_input : ℕ → Request
    queues : Functor → Request

  -- Callbacks run in the loop's thread.
  unfoldable pub run_request : Request → Conn B → Result (Conn B)
  unfolding shutdown force_close force_close_with_delay start_read stop_read
  run_request (sends bytes w) c = send B c.loop.thread_id bytes w c
  run_request shuts_down c = shutdown c.loop.thread_id c
  run_request closes_by_force c = force_close c.loop.thread_id c
  run_request (closes_later s) c = force_close_with_delay s c
  run_request starts_read c = start_read c.loop.thread_id c
  run_request stops_read c = stop_read c.loop.thread_id c
  run_request (takes_input n) c = ok (record c { input_buffer = B.retrieve n c.input_buffer })
  run_request (queues f) c = ok (queue B f c)

  unfoldable pub run_requests : List Request → Conn B → Result (Conn B)
  run_requests [] c = ok c
  run_requests (r ∷ rs) c = run_request r c >>= run_requests rs

  -- The user's code: what each callback does, in the state that it finds.
  abbrev pub User : Type 0
  User = Call → Conn B → List Request

  unfoldable pub callback : User → Call → Conn B → Result (Conn B)
  unfolding run_requests
  callback user k c = let c' = record c { calls = c.calls ++ k ∷ [] } in run_requests (user k c') c'
