-- ===== src/TcpClient/Removal.antt =====
-- `removeConnection` of SrcFile/TcpClient.c: the connection is let go, and a new attempt may follow.
use simple_net_base.Prelude.{
  ◌≡◌, ◌∙◌, refl, sym, ap, subst, Bool, true, false, ◌&&◌, ◌∷◌, none, ==_iff, lookup, if◌then◌else◌,
  ok, ◌>>=◌, Returns, Returns-bind,
}
use simple_net_base.Buffer.{BufferOps}
use simple_net_base.EventLoop.{queue_in_loop}
use simple_net_base.Functor.{Functor}
use simple_net_base.Connector
use simple_net_base.Connector.{Connector, State, Attempt, is_disconnected}
use simple_net_base.Connector.Ownership
use simple_net_base.Connector.Accounting.{queue_in_loop-poller}
use simple_net_base.Connector.Handing.{other_loop-Inv, restart-Inv, idle_of_connected}
use simple_net_base.TcpConnection.{Conn}
use simple_net_base.TcpClient.{
  TcpClient, lent, take_connector, take_connection, hold, remove_connection,
}
use simple_net_base.TcpClient.Single.{Inv, IsHeld}

module _ (B : BufferOps) where
  again_or_not :
      (b : Bool) (a : Attempt) (c : TcpClient B)
      → c.connection ≡ none
      → c.connector.state ≡ State.connected
      → Ownership.Inv (lent B c)
      → (b ≡ true
          → (Connector.outcome a.error ≡ Connector.goes_on → c.connector.channel ≡ none)
            × (lookup a.fd c.loop.poller.channels ≡ none))
      → Returns
          (Inv B)
          (if b then (Connector.restart a (lent B c) >>= λ k. ok (take_connector B c k)) else ok c)
  again_or_not true a c e up v again =
      Returns-bind Ownership.Inv (Inv B) (Connector.restart a (lent B c)) _
        (restart-Inv (lent B c) v a (idle_of_connected c.connector.state up) (again refl).0
          (again refl).1)
        λ k w. record {
          connecting = w;
          held = subst (λ o. IsHeld B o (take_connector B c k)) (sym e) tt;
        }
  again_or_not false a c e up v again = record {
    connecting = v;
    held = subst (λ o. IsHeld B o c) (sym e) tt;
  }

  pub removed-Inv :
      (a : Attempt) (d : Conn B) (c : TcpClient B)
      → c.connector.state ≡ State.connected
      → Ownership.Inv (lent B c)
      → ((c.retry && c.connect) ≡ true
          → (Connector.outcome a.error ≡ Connector.goes_on → c.connector.channel ≡ none)
            × (lookup a.fd d.loop.poller.channels ≡ none))
      → Returns (Inv B) (remove_connection B a d.id (take_connection B c d))
  unfolding remove_connection hold
  removed-Inv a d c up v again =
      let c2 : TcpClient B = record c {
        loop = queue_in_loop d.loop.thread_id (Functor.connect_destroyed d.id) d.loop;
        connection = none;
        released = d ∷ c.released;
      } in
      rw ((==_iff d.id d.id).1 refl) (
        again_or_not (c.retry && c.connect) a c2 refl up
          (other_loop-Inv (lent B c) v c2.loop (idle_of_connected c.connector.state up))
          λ b. (
            (again b).0,
            ap (λ p. lookup a.fd p.channels)
                  (queue_in_loop-poller d.loop.thread_id (Functor.connect_destroyed d.id) d.loop)
                ∙ (again b).1,
          ))
