-- ===== src/TcpConnection/Handled.antt =====
-- The handlers of SrcFile/TcpConnection.c keep the invariant of the connection.
use simple_net_base.Prelude.{
  ℕ, ◌≡◌, ◌≢◌, ◌∙◌, refl, ap, sym, Bool, true, false, List, [], ◌∷◌, arith, length, Returns,
  Returns-bind, ◌==◌, ltb, Bool-cases, inl, inr,
}
use simple_net_base.Buffer.{BufferOps}
use simple_net_base.Socket.{Written, wrote, write_failed}
use simple_net_base.Channel.{is_writing, want_reading, unwant_writing, want_nothing, tie}
use simple_net_base.Channel.Masks.{
  Wants, Wants-tests, want_reading-Wants, unwant_writing-Wants, want_nothing-Wants,
}
use simple_net_base.Functor.{Functor}
use simple_net_base.TcpConnection.{
  Conn, State, connected, connecting, disconnecting, disconnected, is_disconnected, is_connecting,
  is_open, is_disconnecting, connection_call, close_call, enable_reading, disable_writing,
  disable_all, readable_bytes,
}
use simple_net_base.TcpConnection.Requests.{User, set_state, callback}
use simple_net_base.TcpConnection.Handlers.{
  handle_close, handle_write, written_out, retrieved, shutdown_if_waiting, connect_established,
}
use simple_net_base.TcpConnection.Events.{
  Tracks, applied, with_events-applied, queue_if-state, want_reading-Keeps, unwant_writing-Keeps,
  want_nothing-Keeps,
}
use simple_net_base.TcpConnection.Stream.{IsLegal}
use simple_net_base.TcpConnection.Interest.{Inv, applied-Inv, queue_if-Inv}
use simple_net_base.TcpConnection.Asked.{IsPolite, Good, shutdown_in_loop-Good, callback-Good}

module _ (B : BufferOps) (user : User B) (polite : IsPolite B user) where
  open B use {contents}

  closed-Good :
      (c : Conn B) → Inv B c → Good B true (applied B want_nothing (set_state B disconnected c))
  unfolding applied set_state is_disconnected
  closed-Good c v = (
    applied-Inv B want_nothing (record c { state = disconnected }) false false
        (want_nothing-Keeps B) v.tracked (want_nothing-Wants c.channel) (λ e. cc) (λ e. cc)
        (λ e. (refl, refl)),
    refl,
  )

  pub handle_close-Good :
      (c : Conn B)
      → is_open c.state ≡ true
      → Inv B c
      → Returns (Good B true) (handle_close B user c)
  unfolding handle_close disable_all set_state
  handle_close-Good c opened v =
      rw
        (
          opened,
          with_events-applied B want_nothing (want_nothing-Keeps B) (set_state B disconnected c)
              v.tracked,
        )
        (Returns-bind (Good B true) (Good B true)
          (callback B user connection_call (applied B want_nothing (set_state B disconnected c)))
          (callback B user close_call)
          (callback-Good B user connection_call _ true polite (closed-Good c v))
          (λ d g. callback-Good B user close_call d true polite g))

  live_of_connecting : (s : State) → is_connecting s ≡ true → is_disconnected s ≡ false
  unfolding is_connecting is_disconnected
  live_of_connecting disconnected h = cc
  live_of_connecting connecting h = refl
  live_of_connecting connected h = cc
  live_of_connecting disconnecting h = cc

  pub established-Good :
      (c : Conn B)
      → is_connecting c.state ≡ true
      → Inv B c
      → Returns (Good B false) (connect_established B user c)
  unfolding connect_established enable_reading set_state tie applied is_disconnected
  established-Good c fresh v =
      let c1 : Conn B = record (set_state B connected c) { channel = tie c.channel } in
      rw (fresh, with_events-applied B want_reading (want_reading-Keeps B) c1 v.tracked)
        (callback-Good B user connection_call (applied B want_reading c1) false polite (
          applied-Inv B want_reading c1 true v.writes (want_reading-Keeps B) v.tracked
              (want_reading-Wants (tie c.channel) v.reads v.writes v.masked) v.waiting
              (λ a b. v.flushing (live_of_connecting c.state fresh) b) (λ a. cc),
          refl,
        ))

  shutdown_if_waiting-Good :
      (gone : Bool) (c : Conn B)
      → Good B gone c
      → Returns (Good B gone) (shutdown_if_waiting B user c)
  unfolding shutdown_if_waiting
  shutdown_if_waiting-Good gone c g = elim (Bool-cases (is_disconnecting c.state)) [
    | inl waits ↦ rw waits (shutdown_in_loop-Good B gone c g)
    | inr none_waits ↦ rw none_waits g
  ]

  -- The buffer has been emptied.
  written_out-Good :
      (gone : Bool) (c : Conn B) (r w : Bool)
      → Tracks B c
      → Wants c.channel r w
      → contents c.output_buffer ≡ []
      → (is_disconnected c.state ≡ true → r ≡ false)
      → is_disconnected c.state ≡ gone
      → Returns (Good B gone) (written_out B user c)
  unfolding written_out disable_writing applied
  written_out-Good gone c r w t h out quiet e =
      let d : Conn B = applied B unwant_writing c in
      rw (with_events-applied B unwant_writing (unwant_writing-Keeps B) c t) (
        shutdown_if_waiting-Good gone _ (
          queue_if-Inv B d.has_write_complete (Functor.write_complete d.id) d (
              applied-Inv B unwant_writing c r false (unwant_writing-Keeps B) t
                (unwant_writing-Wants c.channel r w h) (λ a. cc) (λ a b. out)
                (λ a. (quiet a, refl))),
          ap is_disconnected (queue_if-state B d.has_write_complete (Functor.write_complete d.id) d)
              ∙ e,
        ))

  ne_of_length : (xs : List ℕ) → (length xs == 0) ≡ false → xs ≢ []
  ne_of_length xs h e = ground (arith, ap length e)

  empty_of_length : (xs : List ℕ) → (length xs == 0) ≡ true → xs ≡ []
  empty_of_length [] h = refl
  empty_of_length (x ∷ xs) h = absurd (ground arith)

  retrieved-Inv :
      (n : ℕ) (c : Conn B)
      → (length (contents (retrieved B user n c).output_buffer) == 0) ≡ false
      → (v : Inv B c) → v.writes ≡ true
      → Inv B (retrieved B user n c)
  unfolding retrieved
  retrieved-Inv n c more v w = record {
    reads = v.reads;
    writes = v.writes;
    tracked = v.tracked;
    masked = v.masked;
    waiting = λ e. ne_of_length _ more;
    flushing = λ a b. cc;
    quiet = v.quiet;
  }

  pub handle_write-Good :
      (gone : Bool) (w : Written) (c : Conn B)
      → IsLegal w (length (contents c.output_buffer))
      → Good B gone c
      → Returns (Good B gone) (handle_write B user w c)
  unfolding handle_write readable_bytes retrieved
  handle_write-Good gone (write_failed e) c legal g = g
  handle_write-Good gone (wrote n) c legal (v, e) = elim (Bool-cases (is_writing c.channel)) [
    | inr idle ↦ rw idle (v, e)
    | inl busy ↦ elim (Bool-cases (ltb 0 n)) [
      | inr none_taken ↦ rw (busy, none_taken) (v, e)
      | inl some_taken ↦
          elim (Bool-cases (length (contents (retrieved B user n c).output_buffer) == 0)) [
            | inl last ↦
                rw (busy, some_taken, last)
                  (written_out-Good gone (retrieved B user n c) v.reads v.writes v.tracked v.masked
                    (empty_of_length _ last) (λ a. (v.quiet a).0) e)
            | inr more ↦
                rw (busy, some_taken, more)
                  (
                    retrieved-Inv n c more v
                        (sym (Wants-tests c.channel v.reads v.writes v.masked).1 ∙ busy),
                    e,
                  )
          ]
    ]
  ]
