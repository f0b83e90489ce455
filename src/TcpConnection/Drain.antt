-- ===== src/TcpConnection/Drain.antt =====
-- `handleWrite` of SrcFile/TcpConnection.c: the output buffer drains into the socket, and a shutdown
-- that waits for it is carried out.
use simple_net_base.Prelude.{
  ℕ, zero, suc, ◌≤◌, ◌≡◌, refl, ap, sym, Bool, true, false, not, ◌&&◌, ◌||◌, List, arith, length,
  drop, take-append-drop, Returns, Returns-mono, ◌==◌, ltb, if◌then◌else◌, Bool-cases, inl, inr,
}
use mathlib.Core.List.{append_assoc}
use simple_net_base.Buffer.{BufferOps}
use simple_net_base.Socket.{Written, wrote, write_failed}
use simple_net_base.Channel.{is_writing, unwant_writing}
use simple_net_base.Channel.Masks.{Wants, Wants-tests, unwant_writing-Wants}
use simple_net_base.Functor.{Functor}
use simple_net_base.TcpConnection.{
  Conn, is_disconnecting, disable_writing, readable_bytes, queue_if,
}
use simple_net_base.TcpConnection.Requests.{User, shutdown_in_loop}
use simple_net_base.TcpConnection.Handlers.{
  handle_write, shutdown_if_waiting, written_out, retrieved,
}
use simple_net_base.TcpConnection.Events.{
  Tracks, applied, with_events-applied, applied-Wants, unwant_writing-Keeps, queue_if-sent,
  queue_if-output_buffer, queue_if-channel, queue_if-state, queue_if-write_shut,
}
use simple_net_base.TcpConnection.Stream.{stream, IsLegal}

module _ (B : BufferOps) (user : User B) where
  open B use {contents}

  abbrev Finished : Conn B → Conn B → Type 0
  Finished c d =
      (d.sent ≡ c.sent)
      × (d.output_buffer ≡ c.output_buffer)
      × (is_writing d.channel ≡ false)
      × (d.write_shut ≡ (c.write_shut || is_disconnecting c.state))

  shutdown_if_waiting-Finished :
      (c q : Conn B)
      → q.sent ≡ c.sent
      → q.output_buffer ≡ c.output_buffer
      → q.state ≡ c.state
      → is_writing q.channel ≡ false
      → q.write_shut ≡ c.write_shut
      → Returns (Finished c) (shutdown_if_waiting B user q)
  unfolding shutdown_if_waiting shutdown_in_loop
  shutdown_if_waiting-Finished c q es eo est ew esh = elim (Bool-cases (is_disconnecting q.state)) [
    | inl waits ↦ rw (waits, ew) (es, eo, ew, ground (arith, waits, ap is_disconnecting est))
    | inr open_still ↦
        rw open_still (es, eo, ew, ground (arith, esh, open_still, ap is_disconnecting est))
  ]

  written_out-Finished :
      (c : Conn B) (r : Bool)
      → Tracks B c
      → Wants c.channel r true
      → Returns (Finished c) (written_out B user c)
  unfolding written_out disable_writing applied
  written_out-Finished c r t h =
      let q : Conn B = applied B unwant_writing c in
      let f : Functor = Functor.write_complete q.id in
      let w : Wants q.channel r false =
        applied-Wants B unwant_writing c r false (unwant_writing-Wants c.channel r true h) in
      rw (with_events-applied B unwant_writing (unwant_writing-Keeps B) c t) (
        shutdown_if_waiting-Finished c (queue_if B q.has_write_complete f q)
          (queue_if-sent B q.has_write_complete f q)
          (queue_if-output_buffer B q.has_write_complete f q)
          (queue_if-state B q.has_write_complete f q)
          (rw (queue_if-channel B q.has_write_complete f q) (Wants-tests q.channel r false w).1)
          (queue_if-write_shut B q.has_write_complete f q))

  -- The bytes that the socket takes from a handler of the write event, and whether they are the last.
  abbrev pub taken : Written → Conn B → ℕ
  taken (wrote n) c = if is_writing c.channel then n else 0
  taken (write_failed e) c = 0

  abbrev pub drains : Written → Conn B → Bool
  drains (wrote n) c =
      is_writing c.channel && (ltb 0 n && length (drop n (contents c.output_buffer)) == 0)
  drains (write_failed e) c = false

  abbrev pub AfterWrite : Written → Conn B → Conn B → Type 0
  AfterWrite w c d =
      (stream B d ≡ stream B c)
      × (contents d.output_buffer ≡ drop (taken w c) (contents c.output_buffer))
      × (is_writing d.channel ≡ (is_writing c.channel && not (drains w c)))
      × (d.write_shut ≡ (c.write_shut || (drains w c && is_disconnecting c.state)))

  retrieved-stream :
      (n : ℕ) (c : Conn B)
      → n ≤ length (contents c.output_buffer)
      → stream B (retrieved B user n c) ≡ stream B c
  unfolding retrieved
  retrieved-stream n c h =
      rw (B.contents-retrieve n c.output_buffer h) (simp (append_assoc, take-append-drop))

  retrieved-contents :
      (n : ℕ) (c : Conn B)
      → n ≤ length (contents c.output_buffer)
      → contents (retrieved B user n c).output_buffer ≡ drop n (contents c.output_buffer)
  unfolding retrieved
  retrieved-contents n c h = B.contents-retrieve n c.output_buffer h

  drop-zero_of : (n : ℕ) (xs : List ℕ) → ltb 0 n ≡ false → drop n xs ≡ xs
  drop-zero_of zero xs h = refl
  drop-zero_of (suc n) xs h = absurd (ground arith)

  wrote-AfterWrite :
      (n : ℕ) (c : Conn B) (r : Bool)
      → Tracks B c
      → Wants c.channel r true
      → is_writing c.channel ≡ true
      → n ≤ length (contents c.output_buffer)
      → Returns (AfterWrite (wrote n) c) (handle_write B user (wrote n) c)
  unfolding handle_write readable_bytes retrieved
  wrote-AfterWrite n c r t h wr le = elim (Bool-cases (ltb 0 n)) [
    | inl some_taken ↦ elim (Bool-cases (length (drop n (contents c.output_buffer)) == 0)) [
      | inl last ↦
          rw (wr, some_taken, retrieved-contents n c le, last)
            (Returns-mono (Finished (retrieved B user n c)) (AfterWrite (wrote n) c) _
              (written_out-Finished (retrieved B user n c) r t h)
              λ d (es, eo, ew, esh). (
                rw (es, eo) (retrieved-stream n c le),
                rw (eo, wr) (retrieved-contents n c le),
                ground (arith, ew, wr, some_taken, last),
                ground (arith, esh, wr, some_taken, last),
              ))
      | inr more ↦
          rw (wr, some_taken, retrieved-contents n c le, more)
            (
              retrieved-stream n c le,
              rw wr (B.contents-retrieve n c.output_buffer le),
              ground (arith, wr, more),
              ground (arith, wr, more),
            )
    ]
    | inr none_taken ↦
        rw (wr, none_taken)
          (
            refl,
            rw wr (sym (drop-zero_of n (contents c.output_buffer) none_taken)),
            ground (arith, wr, none_taken),
            ground (arith, wr, none_taken),
          )
  ]

  -- For a connection whose channel the poller tracks and has one of the four masks, and a socket that
  -- takes at most what it is offered: `handleWrite` meets no failed assertion and keeps the stream of
  -- sent and waiting bytes; the bytes that the socket takes leave the output buffer (none if the channel
  -- does not want to write); the interest in writing is dropped exactly when the buffer has been emptied
  -- by it, and just then a disconnecting connection's writing side is shut, and in no other case.
  pub handle_write-AfterWrite :
      (w : Written) (c : Conn B) (r i : Bool)
      → Tracks B c
      → Wants c.channel r i
      → IsLegal w (length (contents c.output_buffer))
      → Returns (AfterWrite w c) (handle_write B user w c)
  unfolding handle_write
  handle_write-AfterWrite (write_failed e) c r i t h legal =
      (refl, refl, ground arith, ground arith)
  handle_write-AfterWrite (wrote n) c r true t h legal =
      wrote-AfterWrite n c r t h (Wants-tests c.channel r true h).1 legal
  handle_write-AfterWrite (wrote n) c r false t h legal =
      let idle : is_writing c.channel ≡ false = (Wants-tests c.channel r false h).1 in
      rw idle (refl, rw idle refl, ground (arith, idle), ground (arith, idle))
