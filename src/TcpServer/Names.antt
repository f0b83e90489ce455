-- ===== src/TcpServer/Names.antt =====
-- The names of connections, by which the map of SrcFile/TcpServer.c holds them.
use simple_net_base.Prelude.{
  ℕ, ◌^◌, ◌≤◌, ◌<◌, ◌≡◌, ◌∙◌, sym, ap, List, [], ◌∷◌, ◌++◌, length, length-append, drop,
  drop-append, take-all, arith, Returns,
}
use simple_net_base.Prelude.Decimal.{
  decimal, snprintf, number_from, number_from-decimal, length-decimal,
}
use simple_net_base.Sockets.{ByteOrder, AddressText, SockAddr}
use simple_net_base.Sockets.Text.{
  ByteOrderLaws, AddressTextLaws, IsInternet, ip_text, length-ip_text, port_text, length-port_text,
  to_ip_port-text,
}
use simple_net_base.InetAddress.{to_ip_port}
use simple_net_base.TcpServer.{conn_name}

-- A name that has not been cut, read from behind the server's name and its address.
abbrev number_in : List ℕ → List ℕ → List ℕ → ℕ
number_in name ip_port s =
    number_from 0 (drop 1 (drop (length ip_port) (drop 1 (drop (length name) s))))

conn_name-number :
    (name ip_port : List ℕ) (id : ℕ)
    → length ip_port ≤ 51
    → id < 10 ^ 10
    → number_in name ip_port (conn_name name ip_port id) ≡ id
unfolding conn_name snprintf
conn_name-number name ip_port id short few =
    let tail : List ℕ = b'-' ∷ (ip_port ++ b'#' ∷ decimal id) in
    rw
      (
        take-all 63 tail
            (omega (arith, length-append ip_port (b'#' ∷ decimal id), length-decimal 9 id few)),
        drop-append name tail,
        drop-append ip_port (b'#' ∷ decimal id),
      )
      (number_from-decimal id)

module _ (t : AddressText) (laws : AddressTextLaws t) (e : ByteOrder) (order : ByteOrderLaws e)
    (listen : SockAddr) (v : IsInternet listen) where
  -- For a server that listens on an IPv4 or IPv6 address, with an inet_ntop and byte order functions as
  -- documented: the address prints, and with what it prints two connections of the server whose numbers are
  -- positive values of int have the same name only if they have the same number.
  pub conn_name-injective :
      (name : List ℕ) (i j : ℕ)
      → i < 2 ^ 31
      → j < 2 ^ 31
      → Returns
          (λ ip_port. conn_name name ip_port i ≡ conn_name name ip_port j → i ≡ j)
          (to_ip_port t e listen)
  unfolding to_ip_port
  conn_name-injective name i j hi hj = rw (to_ip_port-text t laws listen v e order []) λ same.
      let ip_port : List ℕ = ip_text t listen ++ port_text t laws listen v e order in
      let short : length ip_port ≤ 51 = omega (
        arith,
        length-append (ip_text t listen) (port_text t laws listen v e order),
        length-ip_text t laws listen v,
        length-port_text t laws listen v e order,
      ) in
      sym (conn_name-number name ip_port i short (omega arith))
      ∙ ap (number_in name ip_port) same
      ∙ conn_name-number name ip_port j short (omega arith)
