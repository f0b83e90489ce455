-- ===== src/TcpConnection/Stream.antt =====
-- No byte of SrcFile/TcpConnection.c's output is lost, doubled or reordered between `send` and the socket.
use simple_net_base.Prelude.{
  ℕ, zero, suc, ◌-◌, ◌≤◌, ◌<◌, ◌≡◌, ◌∙◌, refl, ap, sym, Bool, true, false, not, ◌&&◌, List, [], ◌∷◌,
  ◌++◌, arith, length, take, drop, take-all, take-append-drop, length-drop, Returns, Returns-mono,
  le→leb, ◌==◌, ltb, if◌then◌else◌, Bool-cases, inl, inr,
}
use mathlib.Core.List.{append_assoc, append-nil}
use simple_net_base.Buffer.{BufferOps}
use simple_net_base.Socket.{Written, wrote, write_failed}
use simple_net_base.Channel.{is_writing}
use simple_net_base.TcpConnection.{
  Conn, size_mod, sub_size, is_fault, is_disconnected, readable_bytes, try_write, keep_rest,
  warn_high_water, send_rest, send_in_loop,
}
use simple_net_base.TcpConnection.Events.{
  Tracks, applied, ensured, ensure_writing-ensured, queue_if-sent, queue_if-output_buffer,
  queue_if-Tracks,
}

pub sub_size-sub : (a b : ℕ) → b ≤ a → a < size_mod → sub_size a b ≡ a - b
unfolding sub_size
sub_size-sub a b h lt = omega arith

-- `write` takes no more bytes than it is given.
abbrev pub IsLegal : Written → ℕ → Type 0
IsLegal (wrote n) len = n ≤ len
IsLegal (write_failed e) len = Unit {0}

module _ (B : BufferOps) where
  open B use {contents}

  -- What has been sent, followed by what is still to be sent.
  abbrev pub stream : Conn B → List ℕ
  stream c = c.sent ++ contents c.output_buffer

  ensured-stream : (c : Conn B) → stream (ensured B c) ≡ stream c
  unfolding applied
  ensured-stream c = ground (arith, is_writing c.channel)

  take-drop_rest : (n : ℕ) (bytes : List ℕ) → take (length bytes - n) (drop n bytes) ≡ drop n bytes
  take-drop_rest n bytes = take-all _ _ (omega (arith, length-drop {0} n bytes))

  unfoldable pub warned : (n : ℕ) (c : Conn B) (d : List ℕ) → Conn B
  unfolding warn_high_water
  warned n c d = record (warn_high_water B n c) {
    output_buffer = B.append d (warn_high_water B n c).output_buffer;
  }

  pub warned-Tracks : (n : ℕ) (c : Conn B) (d : List ℕ) → Tracks B c → Tracks B (warned n c d)
  unfolding warned
  warned-Tracks n c d h = queue_if-Tracks B _ _ c h

  warned-stream :
      (n : ℕ) (c : Conn B) (d : List ℕ)
      → stream (warned n c d) ≡ c.sent ++ (contents c.output_buffer ++ d)
  unfolding warned
  warned-stream n c d =
      rw (B.contents-append d _, queue_if-sent B _ _ c, queue_if-output_buffer B _ _ c)

  keep_rest-stream :
      (bytes : List ℕ) (n : ℕ) (c : Conn B)
      → Tracks B c
      → Returns
          (λ d. stream d ≡ c.sent ++ (contents c.output_buffer ++ drop n bytes))
          (keep_rest B bytes n (length bytes - n) c)
  unfolding keep_rest warned
  keep_rest-stream bytes n c h =
      let rest : List ℕ = take (length bytes - n) (drop n bytes) in
      let c' : Conn B = warned (length bytes - n) c rest in
      rw (ensure_writing-ensured B c' (warned-Tracks (length bytes - n) c rest h)) (
        ensured-stream c'
        ∙ warned-stream (length bytes - n) c rest
        ∙ ap (λ l. c.sent ++ (contents c.output_buffer ++ l)) (take-drop_rest n bytes))

  -- The socket is asked only if nothing waits, and these answers make the code drop the message.
  abbrev pub asks : Conn B → Bool
  asks c = not (is_writing c.channel) && readable_bytes B c == 0

  abbrev pub is_fault_answer : Written → Bool
  is_fault_answer (wrote n) = false
  is_fault_answer (write_failed e) = is_fault e

  -- What the first half of `sendInLoop` leaves, `n` bytes having been written.
  abbrev pub Wrote : List ℕ → Written → Conn B → Conn B × ℕ × ℕ × Bool → Type 0
  Wrote bytes w c (d, n, remaining, fault) =
      Tracks B d
      × (n ≤ length bytes)
      × (remaining ≡ length bytes - n)
      × (d.sent ≡ c.sent ++ take n bytes)
      × (d.output_buffer ≡ c.output_buffer)
      × (0 < n → contents c.output_buffer ≡ [])
      × (fault ≡ (asks c && is_fault_answer w))
      × (fault ≡ true → n ≡ 0)

  pub empty_of : (xs : List ℕ) → length xs ≡ 0 → xs ≡ []
  empty_of [] h = refl
  empty_of (x ∷ xs) h = absurd (omega arith)

  asks-empty : (c : Conn B) → asks c ≡ true → contents c.output_buffer ≡ []
  unfolding readable_bytes
  asks-empty c h = empty_of (contents c.output_buffer) (ground arith)

  pub try_write-Wrote :
      (bytes : List ℕ) (w : Written) (c : Conn B)
      → Tracks B c
      → IsLegal w (length bytes)
      → length bytes < size_mod
      → Wrote bytes w c (try_write B bytes w c)
  unfolding try_write
  try_write-Wrote bytes (wrote n) c h le lt = elim (Bool-cases (asks c)) [
    | inl asked ↦ rw asked (
      queue_if-Tracks B _ _ _ h,
      le,
      sub_size-sub (length bytes) n le lt,
      queue_if-sent B _ _ _,
      queue_if-output_buffer B _ _ _,
      λ p. asks-empty c asked,
      refl,
      λ p. cc,
    )
    | inr not_asked ↦ rw not_asked (
      h,
      omega arith,
      omega arith,
      sym (append-nil c.sent),
      refl,
      λ p. absurd (omega arith),
      refl,
      λ p. refl,
    )
  ]
  try_write-Wrote bytes (write_failed e) c h le lt = elim (Bool-cases (asks c)) [
    | inl asked ↦ rw asked (
      h,
      omega arith,
      omega arith,
      sym (append-nil c.sent),
      refl,
      λ p. absurd (omega arith),
      refl,
      λ p. refl,
    )
    | inr not_asked ↦ rw not_asked (
      h,
      omega arith,
      omega arith,
      sym (append-nil c.sent),
      refl,
      λ p. absurd (omega arith),
      refl,
      λ p. refl,
    )
  ]

  -- The stream after a send.
  abbrev pub sent_stream : List ℕ → Written → Conn B → List ℕ
  sent_stream bytes w c = if asks c && is_fault_answer w then stream c else stream c ++ bytes

  drop-all_take :
      (n : ℕ) (bytes : List ℕ) → length bytes - n ≡ 0 → n ≤ length bytes → take n bytes ≡ bytes
  drop-all_take n bytes e le = take-all n bytes (omega arith)

  -- Written and kept bytes, or nothing left to keep.
  joined :
      (n : ℕ) (sent out bytes : List ℕ)
      → (0 < n → out ≡ [])
      → (sent ++ take n bytes) ++ (out ++ drop n bytes) ≡ (sent ++ out) ++ bytes
  joined zero sent out bytes h = simp (append-nil, append_assoc)
  joined (suc n) sent out bytes h =
      rw (h (omega arith)) (simp (append-nil, append_assoc, take-append-drop))

  all_written :
      (n : ℕ) (sent out bytes : List ℕ)
      → (0 < n → out ≡ [])
      → n ≤ length bytes
      → length bytes - n ≡ 0
      → (sent ++ take n bytes) ++ out ≡ (sent ++ out) ++ bytes
  all_written zero sent out bytes h le e = rw (empty_of bytes (omega arith)) (simp append-nil)
  all_written (suc n) sent out bytes h le e =
      rw (h (omega arith), take-all (suc n) bytes (omega arith)) (simp append-nil)

  send_rest-stream :
      (bytes : List ℕ) (w : Written) (c d : Conn B) (n r : ℕ) (fault : Bool)
      → Wrote bytes w c (d, n, r, fault)
      → Returns (λ x. stream x ≡ sent_stream bytes w c) (send_rest B bytes (d, n, r, fault))
  unfolding send_rest
  send_rest-stream bytes w c d n r true (t, le, er, es, eo, first, ef, ez) =
      rw (le→leb r (length bytes) (omega arith), ← ef, es, eo, ez refl) (simp append-nil)
  send_rest-stream bytes w c d n r false (t, le, er, es, eo, first, ef, ez) =
      rw (le→leb r (length bytes) (omega arith), ← ef)
        (elim (Bool-cases (ltb 0 r)) [
          | inl more ↦
              rw (more, er)
                (Returns-mono _ (λ x. stream x ≡ stream c ++ bytes)
                  (keep_rest B bytes n (length bytes - n) d) (keep_rest-stream bytes n d t)
                  (λ x p. p ∙ rw (es, eo) (joined n c.sent (contents c.output_buffer) bytes first)))
          | inr none_left ↦
              rw (none_left, es, eo)
                (all_written n c.sent (contents c.output_buffer) bytes first le
                  (ground (arith, er, none_left)))
        ])

  -- On a connection that is not disconnected and whose channel the poller tracks, a send of fewer than
  -- 2^64 bytes, with a socket that takes at most what it is offered, meets no failed assertion; the
  -- bytes sent so far followed by those in the output buffer then end in the whole message, after all
  -- that was there before, except that an EPIPE or ECONNRESET of the direct write drops the message and
  -- leaves them as they were.
  pub send_in_loop-stream :
      (bytes : List ℕ) (w : Written) (c : Conn B)
      → Tracks B c
      → is_disconnected c.state ≡ false
      → IsLegal w (length bytes)
      → length bytes < size_mod
      → Returns (λ d. stream d ≡ sent_stream bytes w c) (send_in_loop B bytes w c)
  unfolding send_in_loop
  send_in_loop-stream bytes w c t live legal lt =
      rw live (send_rest-stream bytes w c _ _ _ _ (try_write-Wrote bytes w c t legal lt))
