-- ===== src/Examples/Fronts.antt =====
-- A server of SrcFile/TcpServer.c with its acceptor, which accepts two connections and runs out of descriptors between.
use simple_net_base.Prelude.{ℕ, refl, List, [], ◌∷◌, Option, none, some, Returns}
use simple_net_base.Socket.{emfile}
use simple_net_base.Acceptor.{Accepted, accepted, accept_failed}
use simple_net_base.TcpServer.Accepting.{Front, accept_all, Spread, accept_all-Spread}
use simple_net_base.Examples.Acceptors.{full}
use simple_net_base.Examples.Servers.{server, server-Inv}

abbrev front : Front
front = record { acceptor = full; server = server }

abbrev answers : List (Accepted × Option ℕ × Option ℕ)
answers =
    (accepted 30, none, none)
    ∷ (accept_failed emfile, some 5, some 7)
    ∷ (accepted 31, none, none)
    ∷ []

accept_all-Spread_example : Returns (Spread answers front) (accept_all answers front)
accept_all-Spread_example = accept_all-Spread answers front refl server-Inv
