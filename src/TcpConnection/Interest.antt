-- ===== src/TcpConnection/Interest.antt =====
-- The invariant of a connection of SrcFile/TcpConnection.c between two events: the channel is known to
-- the poller, and it wants to write exactly while bytes wait.
use simple_net_base.Prelude.{
  ℕ, ◌-◌, ◌<◌, ◌≡◌, ◌≢◌, ◌∙◌, refl, ap, Bool, true, false, ◌&&◌, List, [], ◌++◌, arith, length,
  take, drop, length-append, length-take, length-drop, Returns, Returns-mono, ◌==◌, ltb, Bool-cases,
  inl, inr, ltb→lt, le→leb,
}
use simple_net_base.Buffer.{BufferOps}
use simple_net_base.Socket.{Written, wrote, write_failed}
use simple_net_base.Channel.{Channel, is_writing, want_writing}
use simple_net_base.Channel.Masks.{Wants, Wants-tests, want_writing-Wants}
use simple_net_base.Functor.{Functor}
use simple_net_base.TcpConnection.{
  Conn, State, size_mod, sub_size, warn_high_water, is_disconnected, queue_if, try_write, keep_rest,
  send_rest, send_in_loop,
}
use simple_net_base.TcpConnection.Events.{
  Tracks, Keeps, applied, applied-Tracks, queue_if-channel, queue_if-poller, queue_if-output_buffer,
  queue_if-state, ensured, ensure_writing-ensured, want_writing-Keeps,
}
use simple_net_base.TcpConnection.Stream.{
  IsLegal, asks, try_write-Wrote, Wrote, warned, warned-Tracks,
}

module _ (B : BufferOps) where
  open B use {contents}

  pub record Inv (c : Conn B) : Type 0 where
    pub reads : Bool
    pub writes : Bool
    pub tracked : Tracks B c
    pub masked : Wants c.channel reads writes
    pub waiting : writes ≡ true → contents c.output_buffer ≢ []
    pub flushing : is_disconnected c.state ≡ false → writes ≡ false → contents c.output_buffer ≡ []
    pub quiet : is_disconnected c.state ≡ true → (reads ≡ false) × (writes ≡ false)

  pub Inv-same :
      (c d : Conn B)
      → d.channel ≡ c.channel
      → d.loop.poller ≡ c.loop.poller
      → d.output_buffer ≡ c.output_buffer
      → d.state ≡ c.state
      → Inv c
      → Inv d
  Inv-same c d ec ep eo es v = record {
    reads = v.reads;
    writes = v.writes;
    tracked = rw (ec, ep) v.tracked;
    masked = rw ec v.masked;
    waiting = rw eo v.waiting;
    flushing = rw (eo, es) v.flushing;
    quiet = rw es v.quiet;
  }

  pub applied-Inv :
      (f : Channel → Channel) (c : Conn B) (r w : Bool)
      → Keeps B f
      → Tracks B c
      → Wants (f c.channel) r w
      → (w ≡ true → contents c.output_buffer ≢ [])
      → (is_disconnected c.state ≡ false → w ≡ false → contents c.output_buffer ≡ [])
      → (is_disconnected c.state ≡ true → (r ≡ false) × (w ≡ false))
      → Inv (applied B f c)
  unfolding applied
  applied-Inv f c r w k t h wait flush quiet = record {
    reads = r;
    writes = w;
    tracked = applied-Tracks B f k c t;
    masked = h;
    waiting = wait;
    flushing = flush;
    quiet = quiet;
  }

  -- With bytes in the output buffer of a live connection, `ensure_writing` gives the invariant.
  ensured-Inv :
      (c : Conn B) (r w : Bool)
      → Tracks B c
      → Wants c.channel r w
      → is_disconnected c.state ≡ false
      → contents c.output_buffer ≢ []
      → Inv (ensured B c)
  ensured-Inv c r true t h live some_wait = rw ((Wants-tests c.channel r true h).1) (record {
    reads = r;
    writes = true;
    tracked = t;
    masked = h;
    waiting = λ e. some_wait;
    flushing = λ a b. cc;
    quiet = λ e. cc;
  })
  ensured-Inv c r false t h live some_wait = rw ((Wants-tests c.channel r false h).1) (
      applied-Inv want_writing c r true (want_writing-Keeps B) t
        (want_writing-Wants c.channel r false h) (λ e. some_wait) (λ a b. cc) (λ e. cc))

  module _ (b : Bool) (f : Functor) (c : Conn B) where
    pub queue_if-Inv : Inv c → Inv (queue_if B b f c)
    queue_if-Inv =
        Inv-same c (queue_if B b f c) (queue_if-channel B b f c) (queue_if-poller B b f c)
          (queue_if-output_buffer B b f c) (queue_if-state B b f c)

  -- The first half of `sendInLoop` touches none of what the invariant is about.
  try_write-Inv :
      (bytes : List ℕ) (w : Written) (c : Conn B) → Inv c → Inv (try_write B bytes w c).0
  unfolding try_write
  try_write-Inv bytes (wrote n) c v = elim (Bool-cases (asks B c)) [
    | inl asked ↦
        let d : Conn B = record c { sent = c.sent ++ take n bytes } in
        rw asked (
          queue_if-Inv (sub_size (length bytes) n == 0 && c.has_write_complete)
            (Functor.write_complete c.id) d (Inv-same c d refl refl refl refl v))
    | inr not_asked ↦ rw not_asked v
  ]
  try_write-Inv bytes (write_failed e) c v = elim (Bool-cases (asks B c)) [
    | inl asked ↦ rw asked v
    | inr not_asked ↦ rw not_asked v
  ]

  try_write-state :
      (bytes : List ℕ) (w : Written) (c : Conn B) → (try_write B bytes w c).0.state ≡ c.state
  unfolding try_write queue_if
  try_write-state bytes (wrote n) c = ground arith
  try_write-state bytes (write_failed e) c = ground arith

  append-ne : (xs ys : List ℕ) → 0 < length ys → xs ++ ys ≢ []
  append-ne xs ys h e = omega (arith, ap length e, length-append xs ys)

  warned-Inv :
      (n : ℕ) (c : Conn B) (d : List ℕ)
      → Inv c
      → is_disconnected c.state ≡ false
      → 0 < length d
      → Inv (ensured B (warned B n c d))
  unfolding warned warn_high_water
  warned-Inv n c d v live h =
      ensured-Inv (warned B n c d) v.reads v.writes (warned-Tracks B n c d v.tracked)
        (rw (queue_if-channel B _ _ c) v.masked) (rw (queue_if-state B _ _ c) live)
        (rw (B.contents-append d _) (append-ne _ d h))

  ensured-state : (c : Conn B) → (ensured B c).state ≡ c.state
  unfolding applied
  ensured-state c = ground (arith, is_writing c.channel)

  -- The invariant, in the same state.
  abbrev pub Kept : State → Conn B → Type 0
  Kept s d = Inv d × (d.state ≡ s)

  warned-Kept :
      (n : ℕ) (c : Conn B) (d : List ℕ)
      → Inv c
      → is_disconnected c.state ≡ false
      → 0 < length d
      → Kept c.state (ensured B (warned B n c d))
  unfolding warned warn_high_water
  warned-Kept n c d v live h =
      (warned-Inv n c d v live h, ensured-state (warned B n c d) ∙ queue_if-state B _ _ c)

  keep_rest-Kept :
      (bytes : List ℕ) (n r : ℕ) (c : Conn B)
      → Inv c
      → is_disconnected c.state ≡ false
      → 0 < r
      → r ≡ length bytes - n
      → Returns (Kept c.state) (keep_rest B bytes n r c)
  unfolding keep_rest warned
  keep_rest-Kept bytes n r c v live pos e =
      let rest : List ℕ = take r (drop n bytes) in
      rw (ensure_writing-ensured B (warned B r c rest) (warned-Tracks B r c rest v.tracked)) (
        warned-Kept r c rest v live
          (omega (arith, length-take {0} r (drop n bytes), length-drop {0} n bytes)))

  send_rest-Kept :
      (bytes : List ℕ) (w : Written) (c d : Conn B) (n r : ℕ) (fault : Bool)
      → Wrote B bytes w c (d, n, r, fault)
      → Inv d
      → is_disconnected d.state ≡ false
      → Returns (Kept d.state) (send_rest B bytes (d, n, r, fault))
  unfolding send_rest
  send_rest-Kept bytes w c d n r true (t, le, er, es, eo, first, ef, ez) v live =
      rw (le→leb r (length bytes) (omega arith)) (v, refl)
  send_rest-Kept bytes w c d n r false (t, le, er, es, eo, first, ef, ez) v live =
      rw (le→leb r (length bytes) (omega arith)) (elim (Bool-cases (ltb 0 r)) [
        | inl more ↦ rw more (keep_rest-Kept bytes n r d v live (ltb→lt 0 r more) er)
        | inr none_left ↦ rw none_left (v, refl)
      ])

  pub send_in_loop-Kept :
      (bytes : List ℕ) (w : Written) (c : Conn B)
      → IsLegal w (length bytes)
      → length bytes < size_mod
      → Inv c
      → Returns (Kept c.state) (send_in_loop B bytes w c)
  unfolding send_in_loop
  send_in_loop-Kept bytes w c legal lt v = elim (Bool-cases (is_disconnected c.state)) [
    | inl gone ↦ rw gone (v, refl)
    | inr live ↦ rw live (
        Returns-mono (Kept (try_write B bytes w c).0.state) (Kept c.state)
          (send_rest B bytes (try_write B bytes w c))
          (send_rest-Kept bytes w c _ _ _ _ (try_write-Wrote B bytes w c v.tracked legal lt)
            (try_write-Inv bytes w c v) (rw (try_write-state bytes w c) live))
          (λ d (x, e). (x, e ∙ try_write-state bytes w c)))
  ]
