-- ===== src/Examples/Addresses.antt =====
-- Addresses of SrcFile/InetAddress.c, with functions that do what Endian.h, inet_ntop and inet_pton promise.
use simple_net_base.Prelude.{
  ℕ, ◌+◌, ◌*◌, ◌/◌, ◌%◌, ◌^◌, ◌≡◌, refl, inl, true, false, [], ◌∷◌, some, ok, replicate, arith,
  Returns,
}
use simple_net_base.Prelude.Decimal.{decimal, number_from, number_from-decimal, length-decimal}
use simple_net_base.Sockets.{ByteOrder, AddressText, SockAddr, af_inet, zeroed}
use simple_net_base.Sockets.Text.{ByteOrderLaws, AddressTextLaws, IsInternet}
use simple_net_base.InetAddress.{of_port, of_text, to_ip_port}
use simple_net_base.InetAddress.RoundTrip.{Says, printed, of_text-Says}
use simple_net_base.TcpServer.{conn_name}
use simple_net_base.TcpServer.Names.{conn_name-injective}

abbrev swap16 : ℕ → ℕ
swap16 p = p % 256 * 256 + p / 256

-- A machine whose bytes are the other way round than those of the network.
abbrev little_endian : ByteOrder
little_endian = record {
  host_to_network16 = swap16;
  network_to_host16 = swap16;
  host_to_network32 = λ a. swap16 (a % 2 ^ 16) * 2 ^ 16 + swap16 (a / 2 ^ 16);
}

little_endian_laws : ByteOrderLaws little_endian
little_endian_laws = record {
  network-host16 = λ p h. omega arith;
  host16-lt = λ p h. omega arith;
  network16-lt = λ p h. omega arith;
}

-- An IPv4 address as one number, an IPv6 address as 16 characters.
abbrev plain_text : AddressText
plain_text = record {
  ntop4 = decimal;
  ntop6 = λ b. b;
  pton4 = λ t. some (number_from 0 t);
  pton6 = λ t. some t;
}

plain_text_laws : AddressTextLaws plain_text
plain_text_laws = record {
  ntop4-short = λ a h. omega (arith, length-decimal 9 a (omega arith));
  ntop6-short = λ b h. omega arith;
  pton4-ntop4 = λ a h. rw (number_from-decimal a);
  pton6-ntop6 = λ b h. refl;
}

of_text-Says_example :
    Says plain_text little_endian 2
      (printed plain_text little_endian false 0x7f00_0001 (replicate 16 0))
      8080
      (of_text plain_text little_endian (decimal 0x7f00_0001) 8080 false zeroed)
of_text-Says_example =
    of_text-Says plain_text plain_text_laws little_endian little_endian_laws 8080 (omega arith)
      false 0x7f00_0001 (replicate 16 0) zeroed (omega arith) refl refl

-- The port is stored with its bytes swapped.
loopback_port : (of_port little_endian 0x1f90 true false zeroed).port ≡ 0x901f
unfolding of_port
loopback_port = refl

loopback_text :
    to_ip_port plain_text little_endian
      (of_text plain_text little_endian (decimal 99) 80 false zeroed)
    ≡ ok (b'9' ∷ b'9' ∷ b':' ∷ b'8' ∷ b'0' ∷ [])
unfolding of_text to_ip_port decimal
loopback_text = refl

abbrev here : SockAddr
here = record zeroed { family = af_inet; port = 0x901f; addr4 = 0x0100_007f }

here-IsInternet : IsInternet here
here-IsInternet = record {
  known = inl refl;
  port-lt = omega arith;
  addr4-lt = omega arith;
  full = refl;
}

conn_name-injective_example :
    Returns
      (λ ip_port.
        conn_name (b'S' ∷ []) ip_port 7 ≡ conn_name (b'S' ∷ []) ip_port 12 → ◌≡◌ {A = ℕ} 7 12)
      (to_ip_port plain_text little_endian here)
conn_name-injective_example =
    conn_name-injective plain_text plain_text_laws little_endian little_endian_laws here
      here-IsInternet (b'S' ∷ []) 7 12 (omega arith) (omega arith)
