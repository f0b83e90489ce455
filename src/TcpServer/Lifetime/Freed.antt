-- ===== src/TcpServer/Lifetime/Freed.antt =====
-- A connection of SrcFile/TcpServer.c that nobody else points to is deleted by a round of its loop.
use simple_net_base.Prelude.{
  ◌+◌, ◌≡◌, refl, ap, Bool, true, false, not, List, [], ◌∷◌, ◌==◌, arith, Result, ok, fault, ◌>>◌,
  assert, Returns, Returns-bind, Whenever,
}
use simple_net_base.TcpConnection.{
  disconnected, is_connecting, is_connected, is_disconnected, is_disconnecting, is_open,
}
use simple_net_base.TcpServer.Lifetime.{
  Life, Task, establishes, destroys, closes, tells, borrows, is_shared, tally, holders, use_it,
  settle, connect_established, connect_destroyed, disable_if_connected, force_close_in_loop,
  perform, run_batch, do_pending_functors, IsIdle,
}
use simple_net_base.TcpServer.Lifetime.Course.{
  Course, Inv, deletable, settled, steady-Course, takes-Inv,
}
use simple_net_base.TcpServer.Lifetime.Owned.{Reach, Reach-Inv}
use simple_net_base.TcpServer.Lifetime.Tasks.{perform-Inv, after}

-- Only the functors `ts` of the present round point to the connection, and those that have run.
record IsLeft (ts : List Task) (s : Life) : Type 0 where
  shut : s.state ≡ disconnected
  unheld : s.handles ≡ 0
  unqueued : s.queue ≡ []
  unmapped : s.in_map ≡ false
  unremoved : s.removals + s.removed ≡ 0
  unguarded : s.guarded ≡ false
  batched : s.batch ≡ ts

after-IsLeft : (t : Task) (ts : List Task) (s : Life) → IsLeft (t ∷ ts) s → IsLeft ts (after s t ts)
after-IsLeft t ts s v = record {
  shut = v.shut;
  unheld = v.unheld;
  unqueued = v.unqueued;
  unmapped = v.unmapped;
  unremoved = v.unremoved;
  unguarded = v.unguarded;
  batched = refl;
}

unregistered-IsLeft :
    (ts : List Task) (s : Life) → IsLeft ts s → IsLeft ts (record s { registered = false })
unregistered-IsLeft ts s v = record {
  shut = v.shut;
  unheld = v.unheld;
  unqueued = v.unqueued;
  unmapped = v.unmapped;
  unremoved = v.unremoved;
  unguarded = v.unguarded;
  batched = v.batched;
}

-- After any assertion.
asserted :
    (P : Life → Type 0) (b : Bool) (m : Result Life)
    → (b ≡ true → Whenever P m)
    → Whenever P (assert b >> m)
asserted P true m p = p refl
asserted P false m p = tt

after_use :
    (P : Life → Type 0) (u : Result (Unit {0})) (m : Result Life)
    → Whenever P m
    → Whenever P (u >> m)
after_use P (ok a) m p = p
after_use P (fault e) m p = tt

perform-IsLeft :
    (t : Task) (ts : List Task) (s : Life) → IsLeft ts s → Whenever (IsLeft ts) (perform t s)
unfolding perform connect_established connect_destroyed disable_if_connected force_close_in_loop
    is_connecting is_connected is_open is_disconnecting
perform-IsLeft establishes ts s v = after_use (IsLeft ts) (use_it s) _ (
    asserted (IsLeft ts) (is_connecting s.state) _
      (λ new. absurd (ground (arith, new, ap is_connecting v.shut))))
perform-IsLeft destroys ts s v =
    let not_up : is_connected s.state ≡ false = ap is_connected v.shut in
    after_use (IsLeft ts) (use_it s) _ (
      rw not_up (
        asserted (IsLeft ts) (not s.wants) _
          (λ a. asserted (IsLeft ts) s.registered _ (λ b. unregistered-IsLeft ts s v))))
perform-IsLeft closes ts s v =
    let not_open : is_open s.state ≡ false = ap is_open v.shut in
    after_use (IsLeft ts) (use_it s) _ (rw not_open v)
perform-IsLeft tells ts s v = after_use (IsLeft ts) (use_it s) _ v
perform-IsLeft borrows ts s v = after_use (IsLeft ts) (use_it s) _ v

both :
    (P Q : Life → Type 0) (m : Result Life)
    → Returns P m
    → Whenever Q m
    → Returns (λ s. P s × Q s) m
both P Q (ok s) p q = (p, q)
both P Q (fault e) p q = p

abbrev Leaving : List Task → Life → Type 0
Leaving ts s = Inv s × IsLeft ts s

run_batch-Leaving :
    (ts : List Task) (s : Life) → Leaving ts s → Returns (Leaving []) (run_batch ts s)
unfolding run_batch
run_batch-Leaving [] s v = v
run_batch-Leaving (t ∷ ts) s (w, v) =
    Returns-bind (Leaving ts) (Leaving []) (perform t (after s t ts)) (run_batch ts)
      (both Inv (IsLeft ts) (perform t (after s t ts))
        (perform-Inv s w.course w.living ts t v.batched)
        (perform-IsLeft t ts (after s t ts) (after-IsLeft t ts s v)))
      (run_batch-Leaving ts)

-- Nothing has a pointer once the round's vector has gone.
none_left : (s : Life) → IsLeft [] s → holders (record s { ran = [] }) ≡ 0
unfolding holders
none_left s v =
    let q = ap (tally is_shared) v.unqueued in
    let b = ap (tally is_shared) v.batched in
    ground (arith, v.unheld, v.unmapped, v.unremoved, v.unguarded, q, b)

settle-dies : (s : Life) → Course s → holders s ≡ 0 → Returns (λ t. t.alive ≡ false) (settle s)
unfolding settle
settle-dies s v z =
    let (a, b) = deletable s v z in
    settled (λ t. t.alive ≡ false) s.alive (holders s == 0) (is_disconnected s.state)
      (not s.registered) (record s { alive = false }) s (λ up last. (a, ap not b, refl))
      (λ up more. absurd (ground (arith, more, z))) (λ down. down)

-- Disconnected and out of the map, with no removal, user or handler that has a pointer, and its loop between two rounds.
pub record IsForsaken (s : Life) : Type 0 where
  pub shut : s.state ≡ disconnected
  pub unheld : s.handles ≡ 0
  pub unmapped : s.in_map ≡ false
  pub unremoved : s.removals + s.removed ≡ 0
  pub unguarded : s.guarded ≡ false
  pub idle : IsIdle s

-- A connection that the events after `newConnection` have led to a state in which it is forsaken: one round of its
-- loop runs all its functors without a failed assertion or a use of a dead connection, and leaves it
-- deleted.
pub do_pending_functors-frees :
    {s : Life} → Reach s → IsForsaken s → Returns (λ t. t.alive ≡ false) (do_pending_functors s)
unfolding do_pending_functors
do_pending_functors-frees {s} r v =
    let w = Reach-Inv r in
    let taken : Life = record s { queue = []; batch = s.queue } in
    Returns-bind (Leaving []) (λ t. t.alive ≡ false) (run_batch s.queue taken) _
      (run_batch-Leaving s.queue taken (
        takes-Inv s w (v.idle, v.unguarded),
        record {
          shut = v.shut;
          unheld = v.unheld;
          unqueued = refl;
          unmapped = v.unmapped;
          unremoved = v.unremoved;
          unguarded = v.unguarded;
          batched = refl;
        },
      ))
      (λ t l.
        settle-dies (record t { ran = [] }) (steady-Course [] t.removed t.guarded t l.0.course)
          (none_left t l.1))
