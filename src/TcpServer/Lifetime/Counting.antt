-- ===== src/TcpServer/Lifetime/Counting.antt =====
-- Counting the functors and the pointers of a connection.
use simple_net_base.Prelude.{ℕ, ◌+◌, ◌≤◌, ◌≡◌, List, [], ◌∷◌, ◌++◌, arith}
use simple_net_base.TcpServer.Lifetime.{Task, establishes, destroys, tally, is_shared}

pub tally-snoc :
    (w : Task → ℕ) (ts : List Task) (t : Task) → tally w (ts ++ t ∷ []) ≡ tally w ts + w t
tally-snoc w [] t = omega arith
tally-snoc w (u ∷ ts) t = omega (arith, tally-snoc w ts t)

abbrev pub is_establishing : Task → ℕ
is_establishing establishes = 1
is_establishing _ = 0

abbrev pub is_destroying : Task → ℕ
is_destroying destroys = 1
is_destroying _ = 0

-- Functors that establish or destroy have pointers.
pub tally-shared :
    (ts : List Task) → tally is_establishing ts + tally is_destroying ts ≤ tally is_shared ts
tally-shared [] = omega arith
tally-shared (t ∷ ts) = ground (arith, tally-shared ts)
