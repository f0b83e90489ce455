-- ===== src/Acceptor.antt =====
-- SrcFile/Acceptor.h and SrcFile/Acceptor.c: listening, accepting, and the reserve descriptor that is
-- given up to refuse a connection when no descriptor is left.
use simple_net_base.Prelude.{
  ℕ, Bool, true, false, List, [], ◌∷◌, Option, none, some, if◌then◌else◌, Result, ok, ◌>>=◌,
}
use simple_net_base.Channel
use simple_net_base.Channel.{Channel, want_reading, want_nothing}
use simple_net_base.EventLoop
use simple_net_base.EventLoop.{EventLoop}
use simple_net_base.Functor.{Functor}
use simple_net_base.Socket.{Errno, emfile}
pub mod Descriptors

-- What `accept` answers.
pub data Accepted : Type 0 where
  accepted : ℕ → Accepted
  accept_failed : Errno → Accepted

pub record Acceptor : Type 0 where
  pub loop : EventLoop Functor
  pub accept_channel : Channel
  pub has_callback : Bool  -- newConnectionCallback_ has been set
  pub listenning : Bool
  pub idle_fd : Option ℕ  -- none for a failure's -1
  pub opened : List ℕ  -- the descriptors that accept and open have given, the latest first
  pub closed : List ℕ
  pub handed : List ℕ  -- those given to newConnectionCallback_

-- The constructor, whose `open` succeeds.
unfoldable pub init : ℕ → ℕ → ℕ → EventLoop Functor → Acceptor
init channel_id fd idle l = record {
  loop = l;
  accept_channel = Channel.init channel_id fd;
  has_callback = false;
  listenning = false;
  idle_fd = some idle;
  opened = idle ∷ [];
  closed = [];
  handed = [];
}

unfoldable pub listen : Acceptor → Result Acceptor
listen a = do
  (ch, l) ← EventLoop.update_channel (want_reading a.accept_channel) a.loop
  ok (record a { listenning = true; accept_channel = ch; loop = l })

-- A result of `accept` or `open`: the list of what has been opened grows if there is a descriptor.
abbrev pub noted : Option ℕ → List ℕ → List ℕ
noted none fds = fds
noted (some fd) fds = fd ∷ fds

-- `::close`; with -1 it fails.
unfoldable pub close : Option ℕ → Acceptor → Acceptor
close fd a = record a { closed = noted fd a.closed }

-- The assignments to `idleFd_`.
unfoldable pub set_idle : Option ℕ → Acceptor → Acceptor
set_idle fd a = record a { idle_fd = fd; opened = noted fd a.opened }

-- The case EMFILE, with what the second `accept` and `open` answer.
unfoldable pub refuse : Option ℕ → Option ℕ → Acceptor → Acceptor
unfolding close set_idle
refuse second reopened a =
    let a1 = close a.idle_fd a in
    let a2 = set_idle second a1 in let a3 = close a2.idle_fd a2 in set_idle reopened a3

unfoldable pub is_emfile : Errno → Bool
is_emfile emfile = true
is_emfile _ = false

unfoldable pub handle_read : Accepted → Option ℕ → Option ℕ → Acceptor → Acceptor
unfolding close refuse is_emfile
handle_read (accepted fd) second reopened a =
    let a' = record a { opened = fd ∷ a.opened } in
    if a.has_callback then record a' { handed = fd ∷ a.handed } else close (some fd) a'
handle_read (accept_failed e) second reopened a =
    if is_emfile e then refuse second reopened a else a

-- `~Acceptor`.
unfoldable pub destroy : Acceptor → Result Acceptor
unfolding close
destroy a = do
  (ch1, l1) ← EventLoop.update_channel (want_nothing a.accept_channel) a.loop
  (ch2, l2) ← EventLoop.remove_channel ch1 l1
  ok (close a.idle_fd (record a { accept_channel = ch2; loop = l2 }))
