-- ===== src/TcpConnection/Transfer.antt =====
-- Sending a buffer, the user's settings and the default message callback of SrcFile/TcpConnection.h and
-- SrcFile/TcpConnection.c.
use simple_net_base.Prelude.{ℕ, true, if◌then◌else◌, length, Result, ok, ◌>>=◌}
use simple_net_base.Buffer.{BufferOps}
use simple_net_base.Functor.{Functor}
use simple_net_base.EventLoop.{is_in_loop_thread, run_in_loop}
use simple_net_base.Socket.{Written}
use simple_net_base.TcpConnection.{Conn, is_connected, send_in_loop}

module _ (B : BufferOps) where
  open B use {Buffer, contents, retrieve}

  -- `retrieveAll` of Buffer.h.
  abbrev pub retrieve_all : Buffer → Buffer
  retrieve_all b = retrieve (length (contents b)) b

  unfoldable pub set_write_complete_callback : Conn B → Conn B
  set_write_complete_callback c = record c { has_write_complete = true }

  unfoldable pub set_high_water_mark_callback : ℕ → Conn B → Conn B
  set_high_water_mark_callback mark c = record c { has_high_water = true; high_water_mark = mark }

  unfoldable pub default_message_callback : Conn B → Conn B
  default_message_callback c = record c { input_buffer = retrieve_all c.input_buffer }

  -- `send(Buffer*)`, for a buffer outside the connection: the buffer and the connection after it.
  unfoldable pub send_buffer : ℕ → Buffer → Written → Conn B → Result (Buffer × Conn B)
  unfolding is_in_loop_thread
  send_buffer caller b w c =
      let here = send_in_loop B (contents b) w c >>= λ d. ok (retrieve_all b, d) in
      let there =
        run_in_loop caller (Functor.send_in_loop c.id (contents b))
          (send_in_loop B (contents b) w c) (λ l. record c { loop = l }) c.loop
        >>= λ d. ok (retrieve_all b, d) in
      let chosen = if is_in_loop_thread caller c.loop then here else there in
      if is_connected c.state then chosen else ok (b, c)

  -- The same for the connection's own input buffer, which `sendInLoop` does not touch.
  unfoldable pub send_input : ℕ → Written → Conn B → Result (Conn B)
  unfolding send_buffer
  send_input caller w c =
      send_buffer caller c.input_buffer w c >>= λ (b, d). ok (record d { input_buffer = b })
