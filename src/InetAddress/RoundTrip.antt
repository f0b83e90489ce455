-- ===== src/InetAddress/RoundTrip.antt =====
-- Addresses of SrcFile/InetAddress.c that are made of text and printed again.
use simple_net_base.Prelude.{
  ℕ, ◌^◌, ◌<◌, ◌≡◌, ◌∙◌, refl, ap, inl, inr, Bool, true, false, List, [], ◌∷◌, ◌++◌, ok, length,
  length-drop, arith, if◌then◌else◌,
}
use simple_net_base.Prelude.Decimal.{decimal}
use simple_net_base.Sockets.{ByteOrder, AddressText, SockAddr, af_inet, af_inet6}
use simple_net_base.Sockets.Text.{
  ByteOrderLaws, AddressTextLaws, IsInternet, ip_text, to_ip-ip_text, to_ip_port-text,
}
use simple_net_base.InetAddress.{of_text, to_ip, to_ip_port, to_port, bzero_addr}

module _ (t : AddressText) (e : ByteOrder) where
  abbrev pub family_of : Bool → ℕ
  family_of ipv6 = if ipv6 then af_inet6 else af_inet

  -- The printed form of an IPv6 address or of an IPv4 address.
  abbrev pub printed : Bool → ℕ → List ℕ → List ℕ
  printed ipv6 addr4 addr6 = if ipv6 then t.ntop6 addr6 else t.ntop4 addr4

  -- What the address says: a family, and the texts and the port that it gives back.
  abbrev pub Says : ℕ → List ℕ → ℕ → SockAddr → Type 0
  Says family ip port a =
      (a.family ≡ family)
      × (to_ip t a ≡ ok ip)
      × (to_port e a ≡ port)
      × (to_ip_port t e a ≡ ok (ip ++ b':' ∷ decimal port))

module _ (t : AddressText) (laws : AddressTextLaws t) (e : ByteOrder) (order : ByteOrderLaws e)
    (port : ℕ) (fits : port < 2 ^ 16) where
  IsInternet-Says :
      (a : SockAddr)
      → IsInternet a
      → a.port ≡ e.host_to_network16 port
      → Says t e a.family (ip_text t a) port a
  unfolding to_ip to_ip_port to_port
  IsInternet-Says a v p =
      let back : e.network_to_host16 a.port ≡ port =
        ap e.network_to_host16 p ∙ order.network-host16 port fits in
      (
        refl,
        to_ip-ip_text t laws a v [],
        back,
        to_ip_port-text t laws a v e order [] ∙ ap (λ n. ok (ip_text t a ++ b':' ∷ decimal n)) back,
      )

  -- For 16-bit ports and an inet_ntop, inet_pton and byte order functions as documented: an address that is
  -- made of the printed form of an IPv4 or an IPv6 address and of a port, in whatever memory, has the family
  -- asked for, and gives back the printed form, the port, and both joined by a colon; no assertion fails.
  pub of_text-Says :
      (ipv6 : Bool) (addr4 : ℕ) (addr6 : List ℕ) (memory : SockAddr)
      → addr4 < 2 ^ 32
      → length addr6 ≡ 16
      → length memory.addr6 ≡ 16
      → Says t e
          (family_of t e ipv6)
          (printed t e ipv6 addr4 addr6)
          port
          (of_text t e (printed t e ipv6 addr4 addr6) port ipv6 memory)
  unfolding of_text bzero_addr
  of_text-Says true addr4 addr6 memory h4 h6 hm = rw (laws.pton6-ntop6 addr6 h6) (
      IsInternet-Says _
        (record {
          known = inr refl;
          port-lt = order.host16-lt port fits;
          addr4-lt = omega arith;
          full = h6;
        })
        refl)
  of_text-Says false addr4 addr6 memory h4 h6 hm = rw (laws.pton4-ntop4 addr4 h4) (
      IsInternet-Says _
        (record {
          known = inl refl;
          port-lt = order.host16-lt port fits;
          addr4-lt = h4;
          full = omega (arith, length-drop 8 memory.addr6);
        })
        refl)
