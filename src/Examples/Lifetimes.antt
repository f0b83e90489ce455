-- ===== src/Examples/Lifetimes.antt =====
-- The lives of connections of SrcFile/TcpServer.c.
use simple_net_base.Prelude.{
  ◌≡◌, refl, true, false, List, [], ◌∷◌, ok, fault, dangling, assert_failed, Returns, arith,
}
use simple_net_base.TcpConnection.{
  connected, disconnected, is_connecting, is_connected, is_disconnected, is_disconnecting, is_open,
}
use simple_net_base.TcpServer.Lifetime
use simple_net_base.TcpServer.Lifetime.{do_pending_functors, destroys}
use simple_net_base.TcpServer.Lifetime.{
  Life, init, Event, takes, runs, rounds_off, begins, hangs_up, ends, removes, rounds_off_base,
  copies, drops, asks_to_close, sets_closing, queues_close, asks_to_send, posts, happen, play,
}
use simple_net_base.TcpServer.Lifetime.Owned.{Reach, start, next, IsOwned, Reach-owned}
use simple_net_base.TcpServer.Lifetime.Freed.{IsForsaken, do_pending_functors-frees}

-- The peer closes.
abbrev whole_life : List Event
whole_life =
    takes ∷ runs ∷ rounds_off ∷ begins ∷ hangs_up ∷ ends ∷ removes ∷ rounds_off_base ∷ takes ∷ runs
    ∷ rounds_off ∷ []

abbrev over : Life
over = record init { state = disconnected; in_map = false; queue = []; alive = false }

whole_life_over : play whole_life init ≡ ok over
unfolding play Lifetime.run_next Lifetime.perform Lifetime.use_it Lifetime.connect_established
    Lifetime.connect_destroyed Lifetime.disable_if_connected Lifetime.settle Lifetime.holders
    Lifetime.handle_close Lifetime.remove_connection_in_loop Lifetime.post is_connecting is_open
    is_connected is_disconnected is_disconnecting
whole_life_over = refl

-- A call of `send` in another thread has looked at the state, the peer closes, the call queues its functor, and the
-- user gives up its pointer.
abbrev short_life : List Event
short_life =
    takes ∷ runs ∷ copies ∷ rounds_off ∷ asks_to_send ∷ begins ∷ hangs_up ∷ ends ∷ removes
    ∷ rounds_off_base ∷ takes ∷ runs ∷ posts ∷ drops ∷ rounds_off ∷ takes ∷ runs ∷ []

short_life_dangles : play short_life init ≡ fault dangling
unfolding play Lifetime.run_next Lifetime.perform Lifetime.use_it Lifetime.connect_established
    Lifetime.connect_destroyed Lifetime.disable_if_connected Lifetime.settle Lifetime.holders
    Lifetime.handle_close Lifetime.remove_connection_in_loop Lifetime.post is_connecting is_open
    is_connected is_disconnected is_disconnecting
short_life_dangles = refl

-- forceClose in another thread has tested the state, the peer closes, and the call sets the state and queues its
-- functor: the connection is closed twice, and the second removal fails at the server's assertion.
abbrev second_life : List Event
second_life =
    takes ∷ runs ∷ copies ∷ rounds_off ∷ asks_to_close ∷ begins ∷ hangs_up ∷ ends ∷ sets_closing
    ∷ queues_close ∷ takes ∷ runs ∷ removes ∷ removes ∷ []

closed_twice : play second_life init ≡ fault assert_failed
unfolding play Lifetime.run_next Lifetime.perform Lifetime.use_it Lifetime.connect_established
    Lifetime.force_close_in_loop Lifetime.settle Lifetime.holders Lifetime.handle_close
    Lifetime.remove_connection_in_loop Lifetime.post is_connecting is_open is_connected
    is_disconnected is_disconnecting
closed_twice = refl

abbrev up : Life
up = record init { state = connected; registered = true; wants = true; queue = []; handles = 1 }

-- It is established, and the user has a pointer.
established : Reach up
unfolding happen is_connecting
established =
    next rounds_off
      (next copies (next runs (next takes start ((refl, refl), refl) refl) refl refl) refl refl)
      refl refl

Reach-owned_example : Returns IsOwned (happen begins up)
Reach-owned_example = Reach-owned established begins ((refl, refl), refl, refl, refl)

-- The server has dropped it, and connectDestroyed is in the queue.
abbrev dropped : Life
dropped = record init {
  state = disconnected;
  registered = true;
  in_map = false;
  queue = destroys ∷ [];
}

dropped-Reach : Reach dropped
unfolding happen is_connecting is_open is_connected is_disconnecting is_disconnected
dropped-Reach =
    let open_one =
      next rounds_off (next runs (next takes start ((refl, refl), refl) refl) refl refl) refl
        refl in
    let closed =
      next ends
        (next hangs_up (next begins open_one ((refl, refl), refl, refl, refl) refl) (refl, refl)
          refl)
        refl refl in
    next rounds_off_base (next removes closed (omega arith) refl) tt refl

dropped-IsForsaken : IsForsaken dropped
dropped-IsForsaken = record {
  shut = refl;
  unheld = refl;
  unmapped = refl;
  unremoved = refl;
  unguarded = refl;
  idle = (refl, refl);
}

do_pending_functors-frees_example : Returns (λ t. t.alive ≡ false) (do_pending_functors dropped)
do_pending_functors-frees_example = do_pending_functors-frees dropped-Reach dropped-IsForsaken
