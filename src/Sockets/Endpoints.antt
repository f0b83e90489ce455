-- ===== src/Sockets/Endpoints.antt =====
-- Which connections of SrcFile/SocketOps.c are to themselves.
use simple_net_base.Prelude.{
  ℕ, ◌≡◌, ◌↔◌, refl, Bool, true, false, List, [], ◌∷◌, some, ◌==◌, arith, if◌then◌else◌,
}
use simple_net_base.Sockets.{SockAddr, af_inet, af_inet6, same_bytes, is_self_connect}

-- What a socket address says: an end of a connection, or nothing that the code knows.
pub data Endpoint : Type 0 where
  v4 : (addr port : ℕ) → Endpoint
  v6 : (addr : List ℕ) (port : ℕ) → Endpoint
  unspecified : Endpoint

abbrev pub endpoint_in : ℕ → SockAddr → Endpoint
endpoint_in family a =
    if family == af_inet
    then v4 a.addr4 a.port
    else if family == af_inet6
    then v6 a.addr6 a.port
    else unspecified

abbrev pub endpoint : SockAddr → Endpoint
endpoint a = endpoint_in a.family a

abbrev pub is_specified : Endpoint → Bool
is_specified unspecified = false
is_specified _ = true

same_bytes_refl : (xs : List ℕ) → same_bytes xs xs ≡ true
unfolding same_bytes
same_bytes_refl [] = refl
same_bytes_refl (x ∷ xs) = ground (arith, same_bytes_refl xs)

same_bytes-eq : (xs ys : List ℕ) → same_bytes xs ys ≡ true → xs ≡ ys
unfolding same_bytes
same_bytes-eq [] [] h = refl
same_bytes-eq [] (y ∷ ys) h = cc
same_bytes-eq (x ∷ xs) [] h = cc
same_bytes-eq (x ∷ xs) (y ∷ ys) h = ground (arith, same_bytes-eq xs ys)

-- For a socket whose two ends getsockname and getpeername tell, both of one family: `isSelfConnect` answers
-- true exactly when the family is one that the code knows and the two ends are the same end (for IPv6
-- whatever the flow information and the scope are).
pub is_self_connect_iff :
    (local peer : SockAddr)
    → local.family ≡ peer.family
    → (is_self_connect (some local) (some peer) ≡ true)
      ↔ ((is_specified (endpoint local) ≡ true) × (endpoint local ≡ endpoint peer))
unfolding is_self_connect
is_self_connect_iff local peer e =
    ground (arith, same_bytes-eq local.addr6 peer.addr6, same_bytes_refl local.addr6)
