-- ===== src/Examples/Kernels.antt =====
-- A system with a table of descriptors, under the builds of SrcFile/SocketOps.c.
use simple_net_base.Prelude.{
  ℕ, ◌≡◌, refl, Bool, true, false, List, [], bit_or, Option, none, some, arith, lookup,
  lookup-insert, subst,
}
use simple_net_base.Prelude.Assoc
use simple_net_base.Socket.{Errno, eagain, ebadf, emfile}
use simple_net_base.Sockets
use simple_net_base.Sockets.Calls
use simple_net_base.Sockets.Calls.{
  Kernel, Build, IsMaker, Documented, o_rdwr, o_nonblock, fd_cloexec, accept,
  create_nonblocking_or_die,
}
use simple_net_base.Sockets.Calls.Builds.{Comes, builds-Comes}

record Machine : Type 0 where
  last : Errno
  table : List (ℕ × (ℕ × ℕ))
  room : Bool  -- for one more descriptor

abbrev with_flags : ℕ → ℕ × ℕ → Machine → Machine
with_flags fd f m = record m { table = Assoc.insert fd f m.table }

abbrev failed : Errno → Machine → Machine
failed e m = record m { last = e }

-- The next descriptor is 5.
abbrev make_with : ℕ × ℕ → Bool → Machine → Option ℕ × Machine
make_with f true m = (some 5, with_flags 5 f m)
make_with f false m = (none, failed emfile m)

abbrev new_flags : Bool → ℕ × ℕ
new_flags true = (bit_or o_rdwr o_nonblock, fd_cloexec)
new_flags false = (o_rdwr, 0)

abbrev make : Bool → Machine → Option ℕ × Machine
make flagged m = make_with (new_flags flagged) m.room m

abbrev read : (ℕ × ℕ → ℕ) → Option ℕ → Machine → Option ℕ × Machine
read part none m = (none, failed ebadf m)
read part (some fd) m = elim (lookup fd m.table) [
  | none ↦ (none, failed ebadf m)
  | some f ↦ (some (part f), m)
]

abbrev write : (ℕ → ℕ × ℕ → ℕ × ℕ) → Option ℕ → Option ℕ → Machine → Machine
write change none new m = failed ebadf m
write change (some fd) none m = m
write change (some fd) (some new) m = elim (lookup fd m.table) [
  | none ↦ failed ebadf m
  | some f ↦ with_flags fd (change new f) m
]

abbrev kernel : Kernel Machine
kernel = record {
  flags = λ fd m. lookup fd m.table;
  errno = λ m. m.last;
  set_errno = failed;
  socket = λ family. make;
  accept = λ fd. make;
  get_status = read (λ f. f.0);
  set_status = write (λ new f. (new, f.1));
  get_flags = read (λ f. f.1);
  set_flags = write (λ new f. (f.0, new));
}

found : (fd : ℕ) (f : ℕ × ℕ) (m : Machine) → lookup fd (with_flags fd f m).table ≡ some f
found fd f m = ground (arith, lookup-insert fd fd f m.table)

read_at :
    (part : ℕ × ℕ → ℕ) (fd : ℕ) (f : ℕ × ℕ) (m : Machine)
    → lookup fd m.table ≡ some f
    → read part (some fd) m ≡ (some (part f), m)
read_at part fd f m e = rw (e, read) refl

written_at :
    (change : ℕ → ℕ × ℕ → ℕ × ℕ) (fd new : ℕ) (f : ℕ × ℕ) (m : Machine)
    → lookup fd m.table ≡ some f
    → lookup fd (write change (some fd) (some new) m).table ≡ some (change new f)
written_at change fd new f m e = rw (e, write) (found fd (change new f) m)

abbrev Has : ℕ × ℕ → Option ℕ × Machine → Type 0
Has f (none, v) = Unit {0}
Has f (some new, v) = lookup new v.table ≡ some f

make_with-Has : (f : ℕ × ℕ) (room : Bool) (m : Machine) → Has f (make_with f room m)
make_with-Has f true m = found 5 f m
make_with-Has f false m = tt

make-IsMaker : IsMaker kernel make
make-IsMaker = record {
  bare = λ new w v e. subst (Has (new_flags false)) e (make_with-Has (new_flags false) w.room w);
  flagged = λ new w v e. subst (Has (new_flags true)) e (make_with-Has (new_flags true) w.room w);
}

kernel-Documented : Documented kernel
kernel-Documented = record {
  errno-set_errno = λ e w. refl;
  status_read = λ fd a b w e. read_at (λ f. f.0) fd (a, b) w e;
  status_written = λ fd a b c w e. written_at (λ new f. (new, f.1)) fd c (a, b) w e;
  flags_read = λ fd a b w e. read_at (λ f. f.1) fd (a, b) w e;
  flags_written = λ fd a b c w e. written_at (λ new f. (f.0, new)) fd c (a, b) w e;
  bad_descriptor = λ x w. refl;
  sockets_made = λ family. make-IsMaker;
  connections_made = λ fd. make-IsMaker;
}

abbrev full : Machine
full = record { last = eagain; table = []; room = false }

abbrev without_accept4 : Build
without_accept4 = record { valgrind = false; no_accept4 = true }

builds-Comes_example :
    Comes kernel kernel-Documented false
      (none, failed emfile full)
      (create_nonblocking_or_die kernel without_accept4 2 full)
    × Comes kernel kernel-Documented true
        (none, failed emfile full)
        (accept kernel without_accept4 3 full)
builds-Comes_example = builds-Comes kernel kernel-Documented without_accept4 3 2 full

-- With no descriptor left, this build of accept says that the descriptor is bad.
old_build_hides_emfile : kernel.errno (accept kernel without_accept4 3 full).1 ≡ ebadf
unfolding accept Calls.made Calls.checked Calls.accept_failure Calls.set_non_block_and_close_on_exec
    Calls.keep_errno Sockets.accept_error
old_build_hides_emfile = refl
