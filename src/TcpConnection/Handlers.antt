-- ===== src/TcpConnection/Handlers.antt =====
-- The handlers of SrcFile/TcpConnection.c, which the channel calls, and the two ends of a
-- connection's life.
use simple_net_base.Prelude.{
  ℕ, Bool, true, false, not, ◌&&◌, List, [], ◌∷◌, ◌++◌, ◌==◌, ltb, if◌then◌else◌, take, Result, ok,
  ◌>>=◌, ◌>>◌, assert,
}
use simple_net_base.Buffer.{BufferOps}
use simple_net_base.Channel
use simple_net_base.Channel.{
  Handler, on_close, on_error, on_read, on_write, Registered, is_writing, handle_event,
}
use simple_net_base.EventLoop
use simple_net_base.Functor
use simple_net_base.Socket.{Written, wrote, write_failed, Received, received, read_failed}
use simple_net_base.TcpConnection.{
  Conn, connected, disconnected, is_disconnected, is_connected, is_connecting, is_disconnecting,
  is_open, connection_call, message_call, close_call, enable_reading, disable_writing, disable_all,
  queue_if, readable_bytes,
}
use simple_net_base.TcpConnection.Requests.{User, callback, set_state, shutdown_in_loop}

module _ (B : BufferOps) (user : User B) where
  unfoldable pub handle_close : Conn B → Result (Conn B)
  handle_close c = do
    assert (is_open c.state)
    c1 ← disable_all B (set_state B disconnected c)
    c2 ← callback B user connection_call c1
    callback B user close_call c2

  unfoldable pub force_close_in_loop : Conn B → Result (Conn B)
  force_close_in_loop c = if is_open c.state then handle_close c else ok c

  -- The error is read and logged.
  unfoldable pub handle_error : Conn B → Result (Conn B)
  handle_error c = ok c

  unfoldable pub handle_read : Received → Conn B → Result (Conn B)
  handle_read (received []) c = handle_close c
  handle_read (received (x ∷ xs)) c =
      callback B user message_call (record c { input_buffer = B.append (x ∷ xs) c.input_buffer })
  handle_read (read_failed e) c = handle_error c

  unfoldable pub shutdown_if_waiting : Conn B → Result (Conn B)
  shutdown_if_waiting c =
      let shut = shutdown_in_loop B c in if is_disconnecting c.state then shut else ok c

  -- The end of `handleWrite`, once the buffer is empty.
  unfoldable pub written_out : Conn B → Result (Conn B)
  unfolding shutdown_if_waiting
  written_out c = do
    c1 ← disable_writing B c
    shutdown_if_waiting (queue_if B c1.has_write_complete (Functor.write_complete c1.id) c1)

  -- `write` took `n` bytes, `n > 0`, of the output buffer.
  unfoldable pub retrieved : ℕ → Conn B → Conn B
  retrieved n c = record c {
    sent = c.sent ++ take n (B.contents c.output_buffer);
    output_buffer = B.retrieve n c.output_buffer;
  }

  unfoldable pub handle_write : Written → Conn B → Result (Conn B)
  unfolding written_out retrieved
  handle_write (wrote n) c =
      let c1 = retrieved n c in
      let out = written_out c1 in
      if is_writing c.channel
      then (if ltb 0 n then (if readable_bytes B c1 == 0 then out else ok c1) else ok c)
      else ok c
  handle_write (write_failed e) c = ok c

  unfoldable pub connect_established : Conn B → Result (Conn B)
  connect_established c = do
    assert (is_connecting c.state)
    c1 ← enable_reading B (record (set_state B connected c) { channel = Channel.tie c.channel })
    callback B user connection_call c1

  unfoldable pub remove_channel : Conn B → Result (Conn B)
  remove_channel c = do
    (ch, l) ← EventLoop.remove_channel c.channel c.loop
    ok (record c { channel = ch; loop = l })

  unfoldable pub connect_destroyed : Conn B → Result (Conn B)
  connect_destroyed c =
      let closed = disable_all B (set_state B disconnected c) >>= λ d.
      callback B user connection_call d >>= remove_channel in
      if is_connected c.state then closed else remove_channel c

  -- `~TcpConnection`.
  unfoldable pub destroy : Conn B → Result (Unit {0})
  destroy c = assert (is_disconnected c.state)

  -- All four callbacks of the channel are set in the constructor.
  abbrev registered : Registered
  registered = record {
    close_callback = true;
    error_callback = true;
    read_callback = true;
    write_callback = true;
  }

  unfoldable pub run_handler : Received → Written → Handler → Conn B → Result (Conn B)
  unfolding handle_close handle_error handle_read handle_write
  run_handler r w on_close c = handle_close c
  run_handler r w on_error c = handle_error c
  run_handler r w on_read c = handle_read r c
  run_handler r w on_write c = handle_write w c

  unfoldable pub run_handlers : Received → Written → List Handler → Conn B → Result (Conn B)
  unfolding run_handler
  run_handlers r w [] c = ok c
  run_handlers r w (h ∷ hs) c = run_handler r w h c >>= run_handlers r w hs

  unfoldable pub set_handling : Bool → Conn B → Conn B
  set_handling b c = record c { channel = record (c.channel) { event_handling = b } }

  -- `Channel::handleEvent` on the connection's channel, with what the socket answers.
  unfoldable pub handle_channel_event : Bool → Received → Written → Conn B → Result (Conn B)
  unfolding run_handlers set_handling
  handle_channel_event alive r w c =
      if c.channel.tied && not alive
      then ok c
      else (run_handlers r w (handle_event registered c.channel alive) (set_handling true c)
          >>= λ d. ok (set_handling false d))
