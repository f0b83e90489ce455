-- ===== src/Socket.antt =====
-- What the system calls behind SrcFile/SocketOps.c answer, as values that the environment chooses; the
-- error numbers are those that the code tells apart.
use simple_net_base.Prelude.{ℕ, List}

pub data Errno : Type 0 where
  eagain econnaborted eintr eproto eperm emfile ebadf efault einval enfile enobufs enomem enotsock :
      Errno
  eopnotsupp eaddrinuse eaddrnotavail econnrefused enetunreach eacces eafnosupport ealready : Errno
  einprogress eisconn epipe econnreset : Errno
  other : ℕ → Errno

-- EWOULDBLOCK is EAGAIN on Linux.
pattern abbrev pub ewouldblock : Errno
ewouldblock = eagain

-- `sockets::write`: the bytes taken, or -1 and `errno`.
pub data Written : Type 0 where
  wrote : ℕ → Written
  write_failed : Errno → Written

-- `Buffer::readFd`: the bytes read (none at the end of the stream), or -1 and `errno`.
pub data Received : Type 0 where
  received : List ℕ → Received
  read_failed : Errno → Received
