-- ===== src/TcpServer/Ending.antt =====
-- The destructor of SrcFile/TcpServer.c destroys the connections that are left.
use simple_net_base.Prelude.{
  ℕ, ◌+◌, ◌≡◌, ◌∙◌, refl, not, List, [], ◌∷◌, none, arith, lookup, lookup-erase, is_none,
}
use simple_net_base.Prelude.Assoc
use simple_net_base.Functor.{Functor}
use simple_net_base.TcpServer.{Handle, TcpServer, destroy_all, destroy, post}
use simple_net_base.TcpServer.Handover.{established, destroyed, numbered, one_if, Inv}

-- All is settled: no connection is left, and each one was established and destroyed once.
abbrev pub Settled : TcpServer → TcpServer → Type 0
Settled s r =
    ((id : ℕ)
      → (lookup id r.connections ≡ none)
        × (established id r.posts ≡ numbered id s)
        × (destroyed id r.posts ≡ numbered id s))

-- The entries that are left are those of the map.
abbrev Left : List (ℕ × Handle) → TcpServer → TcpServer → Type 0
Left es s r =
    (id : ℕ)
    → (lookup id r.connections ≡ lookup id es)
      × (established id r.posts ≡ numbered id s)
      × (destroyed id r.posts + one_if (not (is_none (lookup id es))) ≡ numbered id s)

destroy_all-Settled :
    (es : List (ℕ × Handle)) (s r : TcpServer)
    → Assoc.IsMap es
    → Left es s r
    → Settled s (destroy_all es r)
unfolding destroy_all lookup post
destroy_all-Settled [] s r m left = λ id. let (l, e, d) = left id in (l, e, omega (arith, d))
destroy_all-Settled ((k, h) ∷ es) s r (new, m) left =
    destroy_all-Settled es s
      (post h.io_loop (Functor.connect_destroyed k)
        (record r { connections = Assoc.erase k r.connections }))
      m
      (λ id.
        let (l, e, d) = left id in
        (
          ground (arith, lookup-erase k id r.connections, l, new),
          omega (arith, e),
          ground (arith, d, new),
        ))

-- From a server whose connections are accounted for, the destructor leaves no connection in the map, and
-- every number that was given out has then been given to a loop to establish once and to destroy
-- once, and no other number has.
pub destroy-Settled : (s : TcpServer) → Inv s → Settled s (destroy s)
unfolding destroy
destroy-Settled s v =
    destroy_all-Settled s.connections s s v.distinct (λ id. (refl, v.up id, v.down id ∙ v.up id))
