-- ===== src/TcpClient/Attempts.antt =====
-- The events of a connector that a client of SrcFile/TcpClient.c has keep the client's invariant, the
-- write event that leads to a new connection included.
use simple_net_base.Prelude.{
  ℕ, ◌≡◌, ◌≢◌, ◌⊎◌, ◌∙◌, refl, sym, ap, subst, Bool, true, false, List, [], ◌∷◌, none, some, arith,
  lookup, Bool-cases, Option-cases, inl, inr, Result, ok, ◌>>=◌, Returns, Returns-bind,
  Returns-both, >>=_assoc,
}
use simple_net_base.Buffer.{BufferOps}
use simple_net_base.Connector
use simple_net_base.Connector.{
  Connector, State, Attempt, is_connecting, is_disconnected, connected_with,
  remove_and_reset_channel, retry,
}
use simple_net_base.Connector.Ownership
use simple_net_base.Connector.Ownership.{Removed, remove-Removed, retry-Inv, connected_with-Inv}
use simple_net_base.Connector.Accounting
use simple_net_base.Connector.Accounting.{Removable, at_rest}
use simple_net_base.Connector.Handing.{
  Passes, remove-Passes, Dealt, connected_with-Dealt, is_quiet, Rests, step-Connected,
}
use simple_net_base.TcpConnection.{Conn}
use simple_net_base.TcpConnection.Requests.{User}
use simple_net_base.TcpConnection.Asked.{IsPolite}
use simple_net_base.TcpConnection.Interest
use simple_net_base.TcpClient.{
  TcpClient, lent, lent_to, take_connector, new_connection, hand_over, handle_connector_write,
}
use simple_net_base.TcpClient.Single.{Inv, IsHeld, new_connection-Inv}

module _ (B : BufferOps) where
  -- An event of the connector alone.
  unfoldable pub on_connector : Accounting.Event → TcpClient B → Result (TcpClient B)
  on_connector x c = Accounting.step x (lent B c) >>= λ k. ok (take_connector B c k)

  -- While a connection is held nothing else than these happens to the connector.
  on_connector-held :
      (x : Accounting.Event) (c : TcpClient B) (conn : Conn B)
      → c.connection ≡ some conn
      → is_quiet x ≡ true
      → Accounting.CanHappen x (lent B c)
      → Inv B c
      → Returns (Inv B) (on_connector x c)
  unfolding on_connector
  on_connector-held x c conn e quiet h v =
      let held : IsHeld B (some conn) c = subst (λ o. IsHeld B o c) e v.held in
      Returns-bind (λ k. Ownership.Inv k × Rests (lent B c) k) (Inv B)
        (Accounting.step x (lent B c)) _ (step-Connected x (lent B c) quiet held.0 h v.connecting)
        λ k (w, (up, same)). record {
          connecting = w;
          held =
              subst (λ o. IsHeld B o (take_connector B c k)) (sym e)
                (up, held.1, Interest.Inv-same B (lent_to B c conn) _ refl same refl refl held.2);
        }

  on_connector-none :
      (x : Accounting.Event) (c : TcpClient B)
      → c.connection ≡ none
      → Accounting.CanHappen x (lent B c)
      → Inv B c
      → Returns (Inv B) (on_connector x c)
  unfolding on_connector
  on_connector-none x c e h v =
      Returns-bind Ownership.Inv (Inv B) (Accounting.step x (lent B c)) _
        (Accounting.step-Accounted x (lent B c) h v.connecting)
        λ k w. record {
          connecting = w;
          held = subst (λ o. IsHeld B o (take_connector B c k)) (sym e) tt;
        }

  pub on_connector-Inv :
      (x : Accounting.Event) (c : TcpClient B)
      → (is_quiet x ≡ true) ⊎ (c.connection ≡ none)
      → Accounting.CanHappen x (lent B c)
      → Inv B c
      → Returns (Inv B) (on_connector x c)
  on_connector-Inv x c (inr e) h v = on_connector-none x c e h v
  on_connector-Inv x c (inl quiet) h v = elim (Option-cases c.connection) [
    | inl e ↦ on_connector-none x c e h v
    | inr (conn, e) ↦ on_connector-held x c conn e quiet h v
  ]

  module _ (user : User B) where
    hand_over-same : (id : ℕ) (l : List ℕ) (c : TcpClient B) → hand_over B user id l l c ≡ ok c
    unfolding hand_over
    hand_over-same id [] c = refl
    hand_over-same id (x ∷ l) c = ground arith

    hand_over-new :
        (id fd : ℕ) (l : List ℕ) (c : TcpClient B)
        → hand_over B user id l (fd ∷ l) c ≡ new_connection B user id fd c
    unfolding hand_over
    hand_over-new id fd l c = ground arith

    not_handed :
        (id : ℕ) (before after : List ℕ) (c : TcpClient B)
        → after ≡ before
        → Inv B c
        → Returns (Inv B) (hand_over B user id before after c)
    not_handed id before after c e v = rw (e, hand_over-same id before c) v

    handed_on :
        (id fd : ℕ) (before after : List ℕ) (c : TcpClient B)
        → after ≡ fd ∷ before
        → Returns (Inv B) (new_connection B user id fd c)
        → Returns (Inv B) (hand_over B user id before after c)
    handed_on id fd before after c e v = rw (e, hand_over-new id fd before c) v

    -- What is left of an attempt whose channel has been removed goes on to `hand_over`.
    Dealt-Inv :
        (id fd : ℕ) (c : TcpClient B) (d k : Connector)
        → IsPolite B user
        → c.connection ≡ none
        → Passes (lent B c) (fd, d)
        → Ownership.Inv k
        → Dealt fd d k
        → Returns (Inv B) (hand_over B user id c.connector.handed k.handed (take_connector B c k))
    Dealt-Inv id fd c d k polite e (free, same, on) w (inl kept) =
        not_handed id c.connector.handed k.handed (take_connector B c k) (kept ∙ same) (record {
          connecting = w;
          held = subst (λ o. IsHeld B o (take_connector B c k)) (sym e) tt;
        })
    Dealt-Inv id fd c d k polite e (free, same, on) w (inr (up, more, loop)) =
        handed_on id fd c.connector.handed k.handed (take_connector B c k)
          (more ∙ ap (λ l. fd ∷ l) same)
          (new_connection-Inv B user id fd (take_connector B c k) polite up w
            (ap (λ l. lookup fd l.poller.channels) loop ∙ free))

    connected_with-Inv_client :
        (error self : Bool) (id : ℕ) (c : TcpClient B) (r : ℕ × Connector)
        → IsPolite B user
        → c.connection ≡ none
        → Ownership.Inv (lent B c)
        → Removed (lent B c) r
        → Passes (lent B c) r
        → Returns (Inv B) (
            connected_with error self r >>= λ k.
            hand_over B user id c.connector.handed k.handed (take_connector B c k))
    connected_with-Inv_client error self id c (fd, d) polite e v gone p =
        Returns-bind _ (Inv B) (connected_with error self (fd, d)) _
          (Returns-both Ownership.Inv (Dealt fd d) (connected_with error self (fd, d))
            (connected_with-Inv (lent B c) v error self (fd, d) gone)
            (connected_with-Dealt error self fd d))
          (λ k (w, x). Dealt-Inv id fd c d k polite e p w x)

    idle_write :
        (error self : Bool) (k : Connector)
        → is_connecting k.state ≡ false
        → k.state ≢ State.connected
        → Connector.handle_write error self k ≡ ok k
    unfolding Connector.handle_write
    idle_write error self k idle n = rw (idle, at_rest k.state idle n) refl

    going_write :
        (error self : Bool) (k : Connector)
        → is_connecting k.state ≡ true
        → Connector.handle_write error self k
          ≡ (remove_and_reset_channel k >>= connected_with error self)
    unfolding Connector.handle_write
    going_write error self k going = rw going

    vacant-Inv :
        (error self : Bool) (id : ℕ) (c : TcpClient B)
        → IsPolite B user
        → Removable (lent B c)
        → c.connector.state ≢ State.connected
        → c.connection ≡ none
        → Inv B c
        → Returns (Inv B) (handle_connector_write B user error self id c)
    unfolding handle_connector_write
    vacant-Inv error self id c polite h n e v =
        elim (Bool-cases (is_connecting c.connector.state)) [
          | inl going ↦
              let (ch, w) = v.connecting.watching going in
              let lets = h going ch w.0 in
              rw
                (
                  going_write error self (lent B c) going,
                  >>=_assoc (remove_and_reset_channel (lent B c)) (connected_with error self)
                      (λ k. hand_over B user id c.connector.handed k.handed (take_connector B c k)),
                )
                (Returns-bind _ (Inv B) (remove_and_reset_channel (lent B c)) _
                  (Returns-both (Removed (lent B c)) (Passes (lent B c))
                    (remove_and_reset_channel (lent B c))
                    (remove-Removed (lent B c) v.connecting c.connector.state ch going w lets)
                    (remove-Passes (lent B c) ch w lets))
                  (λ r (gone, p).
                    connected_with-Inv_client error self id c r polite e v.connecting gone p))
          | inr idle ↦ rw (idle_write error self (lent B c) idle n) (
              not_handed id c.connector.handed c.connector.handed (take_connector B c (lent B c))
                refl
                (record {
                  connecting = v.connecting;
                  held = subst (λ o. IsHeld B o (take_connector B c (lent B c))) (sym e) tt;
                }))
        ]

    -- A write event of the connector's channel finds no connection held.
    pub handle_connector_write-Inv :
        (error self : Bool) (id : ℕ) (c : TcpClient B)
        → IsPolite B user
        → Removable (lent B c)
        → c.connector.state ≢ State.connected
        → Inv B c
        → Returns (Inv B) (handle_connector_write B user error self id c)
    handle_connector_write-Inv error self id c polite h n v = elim (Option-cases c.connection) [
      | inl e ↦ vacant-Inv error self id c polite h n e v
      | inr (conn, e) ↦
          let held : IsHeld B (some conn) c = subst (λ o. IsHeld B o c) e v.held in
          absurd (n held.0)
    ]
