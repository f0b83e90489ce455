-- ===== src/InetAddress.antt =====
-- SrcFile/InetAddress.h and SrcFile/InetAddress.c: an Internet address over the socket addresses of
-- Sockets. An object is its union's bytes; a constructor is given those that it finds there.
use simple_net_base.Prelude.{
  ℕ, ◌+◌, Bool, true, false, ◌&&◌, List, [], ◌∷◌, ◌++◌, Option, none, some, ◌==◌, if◌then◌else◌,
  drop, take, replicate, Result, ok, ◌>>=◌, ◌>>◌, assert,
}
use simple_net_base.Sockets
use simple_net_base.Sockets.{
  ByteOrder, AddressText, SockAddr, af_inet, af_inet6, zeroed, from_ip_port4, from_ip_port6,
}
pub mod RoundTrip

-- `bzero(&addr_, sizeof addr_)`: the 16 bytes of the sockaddr_in.
unfoldable pub bzero_addr : SockAddr → SockAddr
bzero_addr a = record a { family = 0; port = 0; addr4 = 0; addr6 = replicate 8 0 ++ drop 8 a.addr6 }

-- `bzero(&addr6_, sizeof addr6_)`.
unfoldable pub bzero_addr6 : SockAddr → SockAddr
bzero_addr6 a = zeroed

abbrev pub inaddr_loopback : ℕ
inaddr_loopback = 0x7f00_0001

abbrev in6addr_loopback : List ℕ
in6addr_loopback = replicate 15 0 ++ 1 ∷ []

abbrev in6addr_any : List ℕ
in6addr_any = replicate 16 0

-- `InetAddress(port, loopbackOnly, ipv6)`.
unfoldable pub of_port : ByteOrder → ℕ → Bool → Bool → SockAddr → SockAddr
unfolding bzero_addr bzero_addr6
of_port e port loopback_only ipv6 memory =
    if ipv6
    then record (bzero_addr6 memory) {
      family = af_inet6;
      addr6 = if loopback_only then in6addr_loopback else in6addr_any;
      port = e.host_to_network16 port;
    }
    else record (bzero_addr memory) {
      family = af_inet;
      addr4 = e.host_to_network32 (if loopback_only then inaddr_loopback else 0);
      port = e.host_to_network16 port;
    }

-- `InetAddress(ip, port, ipv6)`.
unfoldable pub of_text : AddressText → ByteOrder → List ℕ → ℕ → Bool → SockAddr → SockAddr
unfolding bzero_addr bzero_addr6 from_ip_port4 from_ip_port6
of_text t e ip port ipv6 memory =
    if ipv6
    then from_ip_port6 t e ip port (bzero_addr6 memory)
    else from_ip_port4 t e ip port (bzero_addr memory)

-- `InetAddress(addr)` of a sockaddr_in, which is copied over the first 16 bytes, and of a sockaddr_in6.
unfoldable pub of_sockaddr_in : SockAddr → SockAddr → SockAddr
of_sockaddr_in addr memory = record addr {
  addr6 = take 8 addr.addr6 ++ drop 8 memory.addr6;
  scope_id = memory.scope_id;
}

unfoldable pub of_sockaddr_in6 : SockAddr → SockAddr → SockAddr
of_sockaddr_in6 addr memory = addr

unfoldable pub set_sock_addr_inet6 : SockAddr → SockAddr → SockAddr
set_sock_addr_inet6 addr6 a = addr6

unfoldable pub family : SockAddr → ℕ
family a = a.family

-- Both have a buffer of 64 bytes with the empty text.
unfoldable pub to_ip : AddressText → SockAddr → Result (List ℕ)
unfolding Sockets.to_ip
to_ip t a = Sockets.to_ip t 64 [] a

unfoldable pub to_ip_port : AddressText → ByteOrder → SockAddr → Result (List ℕ)
unfolding Sockets.to_ip_port
to_ip_port t e a = Sockets.to_ip_port t e 64 [] a

unfoldable pub port_net_endian : SockAddr → ℕ
port_net_endian a = a.port

unfoldable pub to_port : ByteOrder → SockAddr → ℕ
unfolding port_net_endian
to_port e a = e.network_to_host16 (port_net_endian a)

unfoldable pub ip_net_endian : SockAddr → Result ℕ
ip_net_endian a = assert (a.family == af_inet) >> ok a.addr4

-- What gethostbyname_r finds: the kind of the address, its length and its first 32 bits.
pub record HostEntry : Type 0 where
  pub addrtype : ℕ
  pub len : ℕ
  pub addr : ℕ

-- `resolve`: whether it succeeds, and what `out` is then.
unfoldable pub resolve : Option HostEntry → SockAddr → Result (Bool × SockAddr)
resolve none out = ok (false, out)
resolve (some he) out =
    assert (he.addrtype == af_inet && he.len == 4) >> ok (true, record out { addr4 = he.addr })
