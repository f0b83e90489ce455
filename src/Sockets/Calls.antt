-- ===== src/Sockets/Calls.antt =====
-- The wrappers of SrcFile/SocketOps.c that make descriptors, in all of its builds: VALGRIND is about
-- both, NO_ACCEPT4 about accept only. The system is an interface.
use simple_net_base.Prelude.{
  ℕ, ◌≡◌, ◌≢◌, Bool, true, false, ◌||◌, bit_or, Option, none, some, if◌then◌else◌,
}
use simple_net_base.Socket.{Errno, ebadf}
use simple_net_base.Sockets.{AcceptError, expected, unexpected, unknown, accept_error}
pub mod Builds

-- <fcntl.h> on Linux.
abbrev pub o_rdwr : ℕ
o_rdwr = 2

abbrev pub o_nonblock : ℕ
o_nonblock = 2048

abbrev pub fd_cloexec : ℕ
fd_cloexec = 1

-- The calls of a system with the states `W`: none stands for -1. `flags` is what the system keeps of an open
-- descriptor, its status flags and its descriptor flags.
pub record Kernel (W : Type 0) : Type 0 where
  pub flags : ℕ → W → Option (ℕ × ℕ)
  pub errno : W → Errno
  pub set_errno : Errno → W → W
  pub socket : ℕ → Bool → W → Option ℕ × W  -- with SOCK_NONBLOCK and SOCK_CLOEXEC, or neither
  pub accept : ℕ → Bool → W → Option ℕ × W  -- accept4 with both, or accept
  pub get_status : Option ℕ → W → Option ℕ × W  -- fcntl with F_GETFL
  pub set_status : Option ℕ → Option ℕ → W → W  -- F_SETFL
  pub get_flags : Option ℕ → W → Option ℕ × W  -- F_GETFD
  pub set_flags : Option ℕ → Option ℕ → W → W  -- F_SETFD

-- A call that makes a descriptor, with the flags that it is given.
pub record IsMaker {W : Type 0} (k : Kernel W) (call : Bool → W → Option ℕ × W) : Type 0 where
  pub bare : (new : ℕ) (w v : W) → call false w ≡ (some new, v) → k.flags new v ≡ some (o_rdwr, 0)
  pub flagged :
      (new : ℕ) (w v : W)
      → call true w ≡ (some new, v)
      → k.flags new v ≡ some (bit_or o_rdwr o_nonblock, fd_cloexec)

-- What their manual pages say of them.
pub record Documented {W : Type 0} (k : Kernel W) : Type 0 where
  pub errno-set_errno : (e : Errno) (w : W) → k.errno (k.set_errno e w) ≡ e
  pub status_read :
      (fd a b : ℕ) (w : W) → k.flags fd w ≡ some (a, b) → k.get_status (some fd) w ≡ (some a, w)
  pub status_written :
      (fd a b c : ℕ) (w : W)
      → k.flags fd w ≡ some (a, b)
      → k.flags fd (k.set_status (some fd) (some c) w) ≡ some (c, b)
  pub flags_read :
      (fd a b : ℕ) (w : W) → k.flags fd w ≡ some (a, b) → k.get_flags (some fd) w ≡ (some b, w)
  pub flags_written :
      (fd a b c : ℕ) (w : W)
      → k.flags fd w ≡ some (a, b)
      → k.flags fd (k.set_flags (some fd) (some c) w) ≡ some (a, c)
  -- Of a descriptor that is not open, fcntl says that.
  pub bad_descriptor : (x : Option ℕ) (w : W) → k.errno (k.set_flags none x w) ≡ ebadf
  pub sockets_made : (family : ℕ) → IsMaker k (k.socket family)
  pub connections_made : (fd : ℕ) → IsMaker k (k.accept fd)

-- What the preprocessor has been told.
pub record Build : Type 0 where
  pub valgrind : Bool  -- VALGRIND
  pub no_accept4 : Bool  -- NO_ACCEPT4

-- `flags |= mask` on an int; -1 has all bits.
unfoldable pub or_flag : ℕ → Option ℕ → Option ℕ
or_flag mask none = none
or_flag mask (some f) = some (bit_or f mask)

-- errno is left as the switch leaves it.
unfoldable pub keep_errno : AcceptError → Bool
keep_errno expected = true
keep_errno _ = false

module _ {W : Type 0} (k : Kernel W) where
  unfoldable pub set_non_block_and_close_on_exec : Option ℕ → W → W
  unfolding or_flag
  set_non_block_and_close_on_exec fd w0 =
      let (status, w1) = k.get_status fd w0 in
      let w2 = k.set_status fd (or_flag o_nonblock status) w1 in
      let (flags, w3) = k.get_flags fd w2 in k.set_flags fd (or_flag fd_cloexec flags) w3

  -- The result of a call with its flags, or of the bare call and then the flags set.
  unfoldable pub made : Bool → (Bool → W → Option ℕ × W) → W → Option ℕ × W
  unfolding set_non_block_and_close_on_exec
  made old call w =
      let (bare, w1) = call false w in
      if old then (bare, set_non_block_and_close_on_exec bare w1) else call true w

  unfoldable pub create_nonblocking_or_die : Build → ℕ → W → Option ℕ × W
  unfolding made
  create_nonblocking_or_die b family w = made b.valgrind (k.socket family) w

  -- The switch on the error of a failed call.
  unfoldable pub accept_failure : W → W
  unfolding keep_errno accept_error
  accept_failure w =
      let saved_errno = k.errno w in
      if keep_errno (accept_error saved_errno) then k.set_errno saved_errno w else w

  unfoldable pub checked : Option ℕ × W → Option ℕ × W
  unfolding accept_failure
  checked (none, w) = (none, accept_failure w)
  checked (some fd, w) = (some fd, w)

  unfoldable pub accept : Build → ℕ → W → Option ℕ × W
  unfolding made checked
  accept b fd w = checked (made (b.valgrind || b.no_accept4) (k.accept fd) w)
