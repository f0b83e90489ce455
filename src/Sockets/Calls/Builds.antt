-- ===== src/Sockets/Calls/Builds.antt =====
-- What the builds of SrcFile/SocketOps.c make of a system call.
use simple_net_base.Prelude.{
  ℕ, ◌≡◌, ◌∙◌, refl, Bool, true, false, not, ◌||◌, bit_or, Option, none, some, if◌then◌else◌,
}
use simple_net_base.Socket.{ebadf}
use simple_net_base.Sockets.{accept_error}
use simple_net_base.Sockets.Calls.{
  Kernel, Documented, IsMaker, Build, create_nonblocking_or_die, o_rdwr, o_nonblock, fd_cloexec,
  or_flag, keep_errno, set_non_block_and_close_on_exec, made, accept_failure, checked, accept,
}

module _ {W : Type 0} (k : Kernel W) (doc : Documented k) where
  -- Open, and neither blocking nor inherited.
  abbrev pub IsReady : ℕ → W → Type 0
  IsReady fd w = k.flags fd w ≡ some (bit_or o_rdwr o_nonblock, fd_cloexec)

  set_non_block-IsReady :
      (fd : ℕ) (w : W)
      → k.flags fd w ≡ some (o_rdwr, 0)
      → IsReady fd (set_non_block_and_close_on_exec k (some fd) w)
  unfolding set_non_block_and_close_on_exec or_flag
  set_non_block-IsReady fd w e =
      let w2 : W = k.set_status (some fd) (some (bit_or o_rdwr o_nonblock)) w in
      let e2 = doc.status_written fd o_rdwr 0 (bit_or o_rdwr o_nonblock) w e in
      rw
        (
          doc.status_read fd o_rdwr 0 w e,
          doc.flags_read fd (bit_or o_rdwr o_nonblock) 0 w2 e2,
          set_non_block_and_close_on_exec,
        )
        (doc.flags_written fd (bit_or o_rdwr o_nonblock) 0 fd_cloexec w2 e2)

  set_non_block-errno : (w : W) → k.errno (set_non_block_and_close_on_exec k none w) ≡ ebadf
  unfolding set_non_block_and_close_on_exec
  set_non_block-errno w = doc.bad_descriptor _ _

  accept_failure-errno : (w : W) → k.errno (accept_failure k w) ≡ k.errno w
  unfolding accept_failure
  accept_failure-errno w = either (keep_errno (accept_error (k.errno w)))
    where
      either : (b : Bool) → k.errno (if b then k.set_errno (k.errno w) w else w) ≡ k.errno w
      either true = doc.errno-set_errno (k.errno w) w
      either false = refl

  -- What comes of a call that has ended in `x`, where `bare` says that its flags were set after it: its
  -- descriptor, neither blocking nor inherited, or a failure with its error, or with that of fcntl.
  abbrev pub Comes : Bool → Option ℕ × W → Option ℕ × W → Type 0
  Comes bare (none, v) (none, u) = k.errno u ≡ (if bare then ebadf else k.errno v)
  Comes bare (some a, v) (some b, u) = (a ≡ b) × IsReady b u
  Comes bare _ _ = ⊥

  set-Comes :
      (call : Bool → W → Option ℕ × W) (w : W) (r : Option ℕ × W)
      → IsMaker k call
      → call false w ≡ r
      → Comes true r (r.0, set_non_block_and_close_on_exec k r.0 r.1)
  set-Comes call w (none, v) m e = set_non_block-errno v
  set-Comes call w (some a, v) m e = (refl, set_non_block-IsReady a v (m.bare a w v e))

  flagged-Comes :
      (call : Bool → W → Option ℕ × W) (w : W) (r : Option ℕ × W)
      → IsMaker k call
      → call true w ≡ r
      → Comes false r r
  flagged-Comes call w (none, v) m e = refl
  flagged-Comes call w (some a, v) m e = (refl, m.flagged a w v e)

  made-Comes :
      (bare : Bool) (call : Bool → W → Option ℕ × W) (w : W)
      → IsMaker k call
      → Comes bare (call (not bare) w) (made k bare call w)
  unfolding made
  made-Comes true call w m = set-Comes call w (call false w) m refl
  made-Comes false call w m = flagged-Comes call w (call true w) m refl

  checked-Comes : (bare : Bool) (x y : Option ℕ × W) → Comes bare x y → Comes bare x (checked k y)
  unfolding checked
  checked-Comes bare (none, v) (none, u) c = accept_failure-errno u ∙ c
  checked-Comes bare (some a, v) (some b, u) c = c
  checked-Comes bare (none, v) (some b, u) c = c
  checked-Comes bare (some a, v) (none, u) c = c

  -- On a system that does what its manual says, in every build: createNonblockingOrDie and sockets::accept give
  -- the descriptor that their system call gives, neither blocking nor inherited; if the call fails, so do they, with
  -- its errno where it takes the flags itself, and with EBADF, from fcntl, where they are set after it, which
  -- is with VALGRIND for both and with NO_ACCEPT4 for accept only.
  pub builds-Comes :
      (b : Build) (fd family : ℕ) (w : W)
      → Comes b.valgrind
          (k.socket family (not b.valgrind) w)
          (create_nonblocking_or_die k b family w)
        × Comes
            (b.valgrind || b.no_accept4)
            (k.accept fd (not (b.valgrind || b.no_accept4)) w)
            (accept k b fd w)
  unfolding accept create_nonblocking_or_die
  builds-Comes b fd family w =
      let bare : Bool = b.valgrind || b.no_accept4 in
      (
        made-Comes b.valgrind (k.socket family) w (doc.sockets_made family),
        checked-Comes bare (k.accept fd (not bare) w) (made k bare (k.accept fd) w)
            (made-Comes bare (k.accept fd) w (doc.connections_made fd)),
      )
