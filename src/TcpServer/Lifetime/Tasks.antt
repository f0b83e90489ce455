-- ===== src/TcpServer/Lifetime/Tasks.antt =====
-- The functors of a connection of SrcFile/TcpServer.c use it while it is alive.
use simple_net_base.Prelude.{
  ◌+◌, ◌≡◌, inl, inr, refl, ap, true, false, not, List, [], ◌∷◌, ◌==◌, arith, ok, Returns,
  Bool-cases,
}
use simple_net_base.TcpConnection.{
  disconnected, is_connecting, is_connected, is_disconnected, is_disconnecting, is_open,
}
use simple_net_base.TcpServer.Lifetime.{
  Life, Task, establishes, destroys, closes, tells, borrows, tally, is_shared, is_borrow, holders,
  use_it, handle_close, connect_established, connect_destroyed, disable_if_connected,
  force_close_in_loop, perform, run_next,
}
use simple_net_base.TcpServer.Lifetime.Counting.{is_establishing, is_destroying}
use simple_net_base.TcpServer.Lifetime.Course.{Course, Inv}

pub ended-Inv :
    (s : Life)
    → Course s
    → s.alive ≡ true
    → is_open s.state ≡ true
    → Inv (record s { state = disconnected; wants = false; removals = s.removals + 1 })
unfolding is_connecting is_disconnected is_open is_connected is_disconnecting holders
ended-Inv s v up opened =
    let not_gone : is_disconnected s.state ≡ false = ground (arith, opened) in
    let not_new : is_connecting s.state ≡ false = ground (arith, opened) in
    record {
      course = record {
        establishing = ground (arith, v.establishing, not_new);
        destroying = ground (arith, v.destroying, not_gone, v.open_registered opened);
        mapped = ground (arith, v.mapped, not_gone);
        open_registered = λ x. cc;
        new_unregistered = λ x. cc;
        quiet = λ x. refl;
        lent = v.lent;
      };
      living = ground (arith, up);
    }

-- A functor leaves the batch and keeps its pointer.
abbrev pub after : Life → Task → List Task → Life
after s t ts = record s { batch = ts; ran = t ∷ s.ran }

module _ (s : Life) (v : Course s) (living : s.alive ≡ not (holders s == 0)) (ts : List Task) where
  used : (t : Task) → s.batch ≡ t ∷ ts → use_it (after s t ts) ≡ ok tt
  unfolding use_it holders
  used t e =
      let a = ap (tally is_shared) e in
      let b = ap (tally is_borrow) e in
      let up : s.alive ≡ true = ground (arith, living, a, b, v.lent) in rw up refl

  kept_living : (t : Task) → s.batch ≡ t ∷ ts → s.alive ≡ not (holders (after s t ts) == 0)
  unfolding holders
  kept_living t e = let a = ap (tally is_shared) e in ground (arith, living, a)

  established-Inv :
      s.batch ≡ establishes ∷ ts → Returns Inv (connect_established (after s establishes ts))
  unfolding connect_established is_connecting is_disconnected is_open is_connected is_disconnecting
      holders
  established-Inv e =
      let a = ap (tally is_establishing) e in
      let b = ap (tally is_destroying) e in
      let c = ap (tally is_borrow) e in
      let fresh : is_connecting s.state ≡ true = ground (arith, v.establishing, a) in
      let not_gone : is_disconnected s.state ≡ false = ground (arith, fresh) in
      rw fresh (record {
        course = record {
          establishing = ground (arith, v.establishing, a, fresh);
          destroying = ground (arith, v.destroying, b, not_gone);
          mapped = ground (arith, v.mapped, not_gone);
          open_registered = λ x. refl;
          new_unregistered = λ x. cc;
          quiet = λ x. cc;
          lent = λ z. omega (arith, v.lent z, c);
        };
        living = kept_living establishes e;
      })

  kept-Course :
      (t : Task)
      → s.batch ≡ t ∷ ts
      → is_establishing t ≡ 0
      → is_destroying t ≡ 0
      → Course (after s t ts)
  kept-Course t e x y =
      let a = ap (tally is_establishing) e in
      let b = ap (tally is_destroying) e in
      let c = ap (tally is_borrow) e in
      record {
        establishing = omega (arith, v.establishing, a, x);
        destroying = ground (arith, v.destroying, b, y);
        mapped = v.mapped;
        open_registered = v.open_registered;
        new_unregistered = v.new_unregistered;
        quiet = v.quiet;
        lent = λ z. ground (arith, v.lent z, c);
      }

  kept-Inv :
      (t : Task)
      → s.batch ≡ t ∷ ts
      → is_establishing t ≡ 0
      → is_destroying t ≡ 0
      → Inv (after s t ts)
  kept-Inv t e x y = record { course = kept-Course t e x y; living = kept_living t e }

  closed-Inv : s.batch ≡ closes ∷ ts → Returns Inv (force_close_in_loop (after s closes ts))
  unfolding force_close_in_loop handle_close holders
  closed-Inv e = elim (Bool-cases (is_open s.state)) [
    | inl opened ↦
        let a = ap (tally is_shared) e in
        rw opened (
          ended-Inv (after s closes ts) (kept-Course closes e refl refl) (ground (arith, living, a))
            opened)
    | inr shut ↦ rw shut (kept-Inv closes e refl refl)
  ]

  destroyed-Inv : s.batch ≡ destroys ∷ ts → Returns Inv (connect_destroyed (after s destroys ts))
  unfolding connect_destroyed disable_if_connected is_connecting is_disconnected is_open
      is_connected is_disconnecting holders
  destroyed-Inv e =
      let a = ap (tally is_establishing) e in
      let b = ap (tally is_destroying) e in
      let c = ap (tally is_borrow) e in
      let gone : is_disconnected s.state ≡ true = ground (arith, v.destroying, b) in
      let there : s.registered ≡ true = ground (arith, v.destroying, b) in
      let not_up : is_connected s.state ≡ false = ground (arith, gone) in
      let not_open : is_open s.state ≡ false = ground (arith, gone) in
      rw (not_up, v.quiet gone, there)
        (record {
          course = record {
            establishing = omega (arith, v.establishing, a);
            destroying = ground (arith, v.destroying, b, gone, there);
            mapped = v.mapped;
            open_registered = λ x. cc;
            new_unregistered = λ x. refl;
            quiet = λ x. refl;
            lent = λ z. omega (arith, v.lent z, c);
          };
          living = kept_living destroys e;
        })

  pub perform-Inv : (t : Task) → s.batch ≡ t ∷ ts → Returns Inv (perform t (after s t ts))
  unfolding perform
  perform-Inv establishes e = rw (used establishes e) (established-Inv e)
  perform-Inv destroys e = rw (used destroys e) (destroyed-Inv e)
  perform-Inv closes e = rw (used closes e) (closed-Inv e)
  perform-Inv tells e = rw (used tells e) (kept-Inv tells e refl refl)
  perform-Inv borrows e = rw (used borrows e) (kept-Inv borrows e refl refl)

pub run_next-Inv :
    (s : Life) → Inv s → (ts : List Task) → s.batch ≡ ts → Returns Inv (run_next ts s)
unfolding run_next
run_next-Inv s w [] e = w
run_next-Inv s w (t ∷ ts) e = perform-Inv s w.course w.living ts t e
