-- ===== src/Sockets.antt =====
-- SrcFile/SocketOps.c: socket addresses in memory, their text, and what the code makes of the answers of
-- the system calls. Endian.h is not in the repository and inet_ntop and inet_pton are the system's: both are
-- interfaces.
use simple_net_base.Prelude.{
  ℕ, ◌+◌, ◌-◌, ◌%◌, ◌^◌, ◌≡◌, ◌<◌, Bool, true, false, ◌&&◌, List, [], ◌∷◌, ◌++◌, Option, none, some,
  ◌==◌, ltb, leb, if◌then◌else◌, length, replicate, Result, ok, ◌>>=◌, ◌>>◌, assert,
}
use simple_net_base.Prelude.Decimal.{decimal, snprintf}
use simple_net_base.Socket.{
  Errno, eagain, econnaborted, eintr, eproto, eperm, emfile, ebadf, efault, einval, enfile, enobufs,
  enomem, enotsock, eopnotsupp,
}
pub mod Calls
pub mod Endpoints
pub mod Text

-- Endian.h.
pub record ByteOrder : Type 0 where
  pub host_to_network16 : ℕ → ℕ
  pub network_to_host16 : ℕ → ℕ
  pub host_to_network32 : ℕ → ℕ

-- inet_ntop and inet_pton, for the 32 bits of an IPv4 address and the 16 bytes of an IPv6 address.
pub record AddressText : Type 0 where
  pub ntop4 : ℕ → List ℕ
  pub ntop6 : List ℕ → List ℕ
  pub pton4 : List ℕ → Option ℕ
  pub pton6 : List ℕ → Option (List ℕ)

abbrev pub af_inet : ℕ
af_inet = 2

abbrev pub af_inet6 : ℕ
af_inet6 = 10

abbrev pub inet_addrstrlen : ℕ
inet_addrstrlen = 16

abbrev pub inet6_addrstrlen : ℕ
inet6_addrstrlen = 46

-- The 28 bytes of a sockaddr_in6. A sockaddr_in lies over its first 16: `sin_addr` is where
-- `sin6_flowinfo` is, and `sin_zero` where the first half of `sin6_addr` is.
pub record SockAddr : Type 0 where
  pub family : ℕ
  pub port : ℕ  -- in network order
  pub addr4 : ℕ  -- `sin_addr.s_addr`, or `sin6_flowinfo`
  pub addr6 : List ℕ  -- the bytes of `sin6_addr`
  pub scope_id : ℕ

-- `bzero` over a sockaddr_in6.
abbrev pub zeroed : SockAddr
zeroed = record { family = 0; port = 0; addr4 = 0; addr6 = replicate 16 0; scope_id = 0 }

-- What lies behind a system call that fills an address: on a failure the zeroed one is left.
unfoldable pub filled : Option SockAddr → SockAddr
filled none = zeroed
filled (some a) = a

unfoldable pub get_local_addr : Option SockAddr → SockAddr
unfolding filled
get_local_addr answer = filled answer

unfoldable pub get_peer_addr : Option SockAddr → SockAddr
unfolding filled
get_peer_addr answer = filled answer

-- `getSocketError`: the option's value, or `errno` if it cannot be read.
unfoldable pub get_socket_error : Option ℕ → ℕ → ℕ
get_socket_error none errno = errno
get_socket_error (some value) errno = value

-- `memcmp(…) == 0`.
unfoldable pub same_bytes : List ℕ → List ℕ → Bool
same_bytes [] [] = true
same_bytes (a ∷ xs) (b ∷ ys) = a == b && same_bytes xs ys
same_bytes _ _ = false

-- `isSelfConnect`, with what getsockname and getpeername answer.
unfoldable pub is_self_connect : Option SockAddr → Option SockAddr → Bool
unfolding get_local_addr get_peer_addr same_bytes
is_self_connect sockname peername =
    let local = get_local_addr sockname in
    let peer = get_peer_addr peername in
    if local.family == af_inet
    then local.port == peer.port && local.addr4 == peer.addr4
    else if local.family == af_inet6
    then local.port == peer.port && same_bytes local.addr6 peer.addr6
    else false

-- The cases of the switch in `accept`.
pub data AcceptError : Type 0 where
  expected unexpected unknown : AcceptError

unfoldable pub accept_error : Errno → AcceptError
accept_error eagain = expected
accept_error econnaborted = expected
accept_error eintr = expected
accept_error eproto = expected
accept_error eperm = expected
accept_error emfile = expected
accept_error ebadf = unexpected
accept_error efault = unexpected
accept_error einval = unexpected
accept_error enfile = unexpected
accept_error enobufs = unexpected
accept_error enomem = unexpected
accept_error enotsock = unexpected
accept_error eopnotsupp = unexpected
accept_error _ = unknown

module _ (t : AddressText) where
  open t use {ntop4, ntop6, pton4, pton6}

  -- `toIp` into a buffer of `size` bytes that holds `buf`. inet_ntop succeeds, as the buffer is large
  -- enough for it.
  unfoldable pub to_ip : ℕ → List ℕ → SockAddr → Result (List ℕ)
  to_ip size buf a =
      let four = assert (leb inet_addrstrlen size) >> ok (ntop4 a.addr4) in
      let six = assert (leb inet6_addrstrlen size) >> ok (ntop6 a.addr6) in
      if a.family == af_inet then four else if a.family == af_inet6 then six else ok buf

  unfoldable pub to_ip_port : ByteOrder → ℕ → List ℕ → SockAddr → Result (List ℕ)
  unfolding to_ip snprintf
  to_ip_port e size buf a = do
    ip ← to_ip size buf a
    let port = e.network_to_host16 a.port
    assert (ltb (length ip) size)
    ok (ip ++ snprintf (size - length ip) (b':' ∷ decimal port))

  -- A result of inet_pton, for an address that is left as it is if there is none.
  abbrev pub parsed {ℓ} : {A : Type ℓ} → Option A → A → A
  parsed none a = a
  parsed (some x) a = x

  unfoldable pub from_ip_port4 : ByteOrder → List ℕ → ℕ → SockAddr → SockAddr
  from_ip_port4 e ip port a = record a {
    family = af_inet;
    port = e.host_to_network16 port;
    addr4 = parsed (pton4 ip) a.addr4;
  }

  unfoldable pub from_ip_port6 : ByteOrder → List ℕ → ℕ → SockAddr → SockAddr
  from_ip_port6 e ip port a = record a {
    family = af_inet6;
    port = e.host_to_network16 port;
    addr6 = parsed (pton6 ip) a.addr6;
  }
