-- ===== src/TcpConnection/Echo.antt =====
-- Sending a buffer of SrcFile/TcpConnection.c is sending its bytes and emptying it.
use simple_net_base.Prelude.{
  ℕ, ◌<◌, ◌≡◌, ◌∙◌, refl, true, false, List, [], length, drop, if◌then◌else◌, ok, ◌>>=◌, Returns,
  Returns-bind, Bool-cases, inl, inr, arith, ◌==◌, ==_iff, >>=_assoc, length-drop,
}
use simple_net_base.Buffer.{BufferOps}
use simple_net_base.EventLoop.{run_in_loop}
use simple_net_base.Socket.{Written}
use simple_net_base.TcpConnection.{
  Conn, State, connected, is_connected, is_disconnected, size_mod, send, send_in_loop,
}
use simple_net_base.TcpConnection.Events.{Tracks}
use simple_net_base.TcpConnection.Stream.{
  IsLegal, empty_of, stream, sent_stream, send_in_loop-stream,
}
use simple_net_base.TcpConnection.Transfer.{retrieve_all, send_buffer, send_input}

module _ (B : BufferOps) where
  open B use {Buffer, contents}

  contents-retrieve_all : (b : Buffer) → contents (retrieve_all B b) ≡ []
  contents-retrieve_all b =
      let bytes = contents b in
      B.contents-retrieve (length bytes) b (omega arith)
      ∙ empty_of B (drop (length bytes) bytes) (omega (arith, length-drop (length bytes) bytes))

  -- Sending a buffer, from any thread, does to the connection what sending its bytes does; the buffer
  -- is emptied if the connection is connected and is as it was if not.
  pub send_buffer-send :
      (caller : ℕ) (b : Buffer) (w : Written) (c : Conn B)
      → send_buffer B caller b w c ≡ (
          send B caller (contents b) w c >>= λ d.
          ok (if is_connected c.state then retrieve_all B b else b, d))
  unfolding send_buffer send run_in_loop
  send_buffer-send caller b w c = elim (Bool-cases (is_connected c.state)) [
    | inl up ↦ elim (Bool-cases (c.loop.thread_id == caller)) [
      | inl own ↦ rw (up, own) refl
      | inr other ↦ rw (up, other) refl
    ]
    | inr down ↦ rw down refl
  ]

  live_of_connected : (s : State) → is_connected s ≡ true → is_disconnected s ≡ false
  unfolding is_connected is_disconnected
  live_of_connected State.disconnected e = cc
  live_of_connected State.connecting e = refl
  live_of_connected connected e = refl
  live_of_connected State.disconnecting e = refl

  -- A connected connection whose input is sent back in its own thread, by a write that takes no more
  -- than it is given: the bytes of the input buffer follow all that had been sent or kept to be sent, unless
  -- the socket is asked and answers that the peer is gone, and the input buffer is empty.
  pub send_input-stream :
      (w : Written) (c : Conn B)
      → Tracks B c
      → is_connected c.state ≡ true
      → IsLegal w (length (contents c.input_buffer))
      → length (contents c.input_buffer) < size_mod
      → Returns
          (λ d.
            (stream B d ≡ sent_stream B (contents c.input_buffer) w c)
            × (contents d.input_buffer ≡ []))
          (send_input B c.loop.thread_id w c)
  unfolding send_input send_buffer
  send_input-stream w c t up legal lt =
      let bytes : List ℕ = contents c.input_buffer in
      let own : (c.loop.thread_id == c.loop.thread_id) ≡ true = (==_iff _ _).1 refl in
      rw
        (
          up,
          own,
          >>=_assoc {B = Buffer × Conn B} {C = Conn B} (send_in_loop B bytes w c)
              (λ d. ok (retrieve_all B c.input_buffer, d))
              (λ x. ok (record (x.1) { input_buffer = x.0 })),
        )
        (Returns-bind (λ d. stream B d ≡ sent_stream B bytes w c)
          (λ d. (stream B d ≡ sent_stream B bytes w c) × (contents d.input_buffer ≡ []))
          (send_in_loop B bytes w c) _
          (send_in_loop-stream B bytes w c t (live_of_connected c.state up) legal lt)
          λ d e. (e, contents-retrieve_all c.input_buffer))
