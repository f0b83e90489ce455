-- ===== src/TcpClient/Names.antt =====
-- The names that SrcFile/TcpClient.c gives to its connections.
use simple_net_base.Prelude.{
  ℕ, zero, suc, ◌≤◌, ◌≡◌, refl, ap, List, [], ◌∷◌, ◌++◌, length, take, arith,
}
use simple_net_base.Prelude.Decimal.{decimal, snprintf}
use simple_net_base.TcpClient.{conn_name}

take-append {ℓ} :
    {A : Type ℓ} (n : ℕ) (xs ys : List A) → n ≤ length xs → take n (xs ++ ys) ≡ take n xs
take-append zero xs ys h = refl
take-append (suc n) [] ys h = elim h [ ]
take-append (suc n) (x ∷ xs) ys h = ap (λ l. x ∷ l) (take-append n xs ys (omega arith))

-- If the peer's address takes 30 characters or more as text, all connections of a client have the same name,
-- whatever their numbers: the buffer of 32 bytes cuts the number off.
pub conn_name-same :
    (name peer : List ℕ) (i j : ℕ)
    → 30 ≤ length peer
    → conn_name name peer i ≡ conn_name name peer j
unfolding conn_name snprintf
conn_name-same name peer i j h =
    rw (take-append 30 peer (b'#' ∷ decimal i) h, take-append 30 peer (b'#' ∷ decimal j) h)
