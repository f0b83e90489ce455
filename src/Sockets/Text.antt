-- ===== src/Sockets/Text.antt =====
-- The text that SrcFile/SocketOps.c makes of an address, for an inet_ntop and byte order functions that do
-- what their manuals say.
use simple_net_base.Prelude.{
  ℕ, ◌-◌, ◌^◌, ◌≤◌, ◌<◌, ◌==◌, ◌≡◌, refl, ◌⊎◌, inl, inr, List, ◌∷◌, ◌++◌, some, ok, length,
  take-all, arith, lt→ltb, if◌then◌else◌,
}
use simple_net_base.Prelude.Decimal.{decimal, snprintf, length-decimal}
use simple_net_base.Sockets.{ByteOrder, AddressText, SockAddr, af_inet, af_inet6, to_ip, to_ip_port}

-- What Endian.h promises of 16-bit numbers.
pub record ByteOrderLaws (e : ByteOrder) : Type 0 where
  pub network-host16 : (p : ℕ) → p < 2 ^ 16 → e.network_to_host16 (e.host_to_network16 p) ≡ p
  pub host16-lt : (p : ℕ) → p < 2 ^ 16 → e.host_to_network16 p < 2 ^ 16
  pub network16-lt : (p : ℕ) → p < 2 ^ 16 → e.network_to_host16 p < 2 ^ 16

-- What the manual of inet_ntop promises: the buffer sizes of <netinet/in.h> are enough, the final zero
-- included, and inet_pton reads what inet_ntop has written.
pub record AddressTextLaws (t : AddressText) : Type 0 where
  pub ntop4-short : (a : ℕ) → a < 2 ^ 32 → length (t.ntop4 a) < 16
  pub ntop6-short : (b : List ℕ) → length b ≡ 16 → length (t.ntop6 b) < 46
  pub pton4-ntop4 : (a : ℕ) → a < 2 ^ 32 → t.pton4 (t.ntop4 a) ≡ some a
  pub pton6-ntop6 : (b : List ℕ) → length b ≡ 16 → t.pton6 (t.ntop6 b) ≡ some b

-- An address of a family that the code knows, its fields within their widths.
pub record IsInternet (a : SockAddr) : Type 0 where
  pub known : (a.family ≡ af_inet) ⊎ (a.family ≡ af_inet6)
  pub port-lt : a.port < 2 ^ 16
  pub addr4-lt : a.addr4 < 2 ^ 32
  pub full : length a.addr6 ≡ 16

-- The text of an address without its port.
abbrev pub ip_text : AddressText → SockAddr → List ℕ
ip_text t a = if a.family == af_inet then t.ntop4 a.addr4 else t.ntop6 a.addr6

module _ (t : AddressText) (laws : AddressTextLaws t) (a : SockAddr) (v : IsInternet a) where
  pub to_ip-ip_text : (buf : List ℕ) → to_ip t 64 buf a ≡ ok (ip_text t a)
  unfolding to_ip
  to_ip-ip_text buf = elim v.known [ inl e ↦ rw e | inr e ↦ rw e ]

  pub length-ip_text : length (ip_text t a) < 46
  length-ip_text = elim v.known [
    | inl e ↦ rw e (omega (arith, laws.ntop4-short a.addr4 v.addr4-lt))
    | inr e ↦ rw e (laws.ntop6-short a.addr6 v.full)
  ]

  module _ (e : ByteOrder) (order : ByteOrderLaws e) where
    abbrev pub port_text : List ℕ
    port_text = b':' ∷ decimal (e.network_to_host16 a.port)

    pub length-port_text : length port_text ≤ 6
    length-port_text = omega (
      arith,
      length-decimal 4 (e.network_to_host16 a.port)
          (omega (arith, order.network16-lt a.port v.port-lt)),
    )

    pub to_ip_port-text : (buf : List ℕ) → to_ip_port t e 64 buf a ≡ ok (ip_text t a ++ port_text)
    unfolding to_ip_port snprintf
    to_ip_port-text buf =
        rw
          (
            to_ip-ip_text buf,
            lt→ltb (length (ip_text t a)) 64 (omega (arith, length-ip_text)),
            take-all (64 - length (ip_text t a) - 1) port_text
                (omega (arith, length-ip_text, length-port_text)),
          )
          refl
