-- ===== src/TcpServer/Lifetime/Course.antt =====
-- Where a connection of SrcFile/TcpServer.c is on its way, and that its pointers keep it alive.
use simple_net_base.Prelude.{
  ℕ, ◌+◌, ◌≡◌, ◌∙◌, refl, ap, sym, Bool, true, false, not, ◌&&◌, List, [], ◌==◌, if◌then◌else◌,
  arith, ok, ◌>>◌, assert, Returns,
}
use simple_net_base.TcpConnection.{
  is_connecting, is_connected, is_disconnected, is_disconnecting, is_open,
}
use simple_net_base.TcpServer.Lifetime.{
  Life, init, Task, tally, is_shared, is_borrow, one_if, holders, settle, takes, borrowed,
  CanHappen,
}
use simple_net_base.TcpServer.Lifetime.Counting.{is_establishing, is_destroying, tally-shared}

abbrev pub to_establish : Life → ℕ
to_establish s = tally is_establishing s.queue + tally is_establishing s.batch

abbrev pub to_destroy : Life → ℕ
to_destroy s = tally is_destroying s.queue + tally is_destroying s.batch

-- Where the connection is on its way.
pub record Course (s : Life) : Type 0 where
  pub establishing : to_establish s ≡ one_if (is_connecting s.state)
  pub destroying : to_destroy s + s.removals ≡ one_if (is_disconnected s.state && s.registered)
  pub mapped : one_if s.in_map ≡ s.removals + one_if (not (is_disconnected s.state))
  pub open_registered : is_open s.state ≡ true → s.registered ≡ true
  pub new_unregistered : is_connecting s.state ≡ true → s.registered ≡ false
  pub quiet : is_disconnected s.state ≡ true → s.wants ≡ false
  pub lent : s.handles ≡ 0 → borrowed s ≡ 0

-- And it is alive exactly as long as it has a pointer.
pub record Inv (s : Life) : Type 0 where
  pub course : Course s
  pub living : s.alive ≡ not (holders s == 0)

pub init-Inv : Inv init
unfolding is_connecting is_disconnected is_open is_connected is_disconnecting holders
init-Inv = record {
  course = record {
    establishing = refl;
    destroying = refl;
    mapped = refl;
    open_registered = λ h. cc;
    new_unregistered = λ h. refl;
    quiet = λ h. cc;
    lent = λ h. refl;
  };
  living = refl;
}

-- With no pointer left, both destructors find what they assert.
pub deletable :
    (s : Life)
    → Course s
    → holders s ≡ 0
    → (is_disconnected s.state ≡ true) × (s.registered ≡ false)
unfolding holders
deletable s v none_left =
    let a = tally-shared s.queue in
    let b = tally-shared s.batch in
    (ground (arith, v.mapped, none_left), ground (arith, v.mapped, v.destroying, none_left, a, b))

-- The three ways through `settle`.
pub settled :
    (P : Life → Type 0) (up last d u : Bool) (t s : Life)
    → (up ≡ true → last ≡ true → (d ≡ true) × (u ≡ true) × P t)
    → (up ≡ true → last ≡ false → P s)
    → (up ≡ false → P s)
    → Returns P (if up then (if last then assert d >> (assert u >> ok t) else ok s) else ok s)
settled P true true d u t s a b c = let (e, f, p) = a refl refl in rw (e, f) p
settled P true false d u t s a b c = b refl refl
settled P false last d u t s a b c = c refl

buried-Course : (s : Life) → Course s → Course (record s { alive = false })
buried-Course s v = record {
  establishing = v.establishing;
  destroying = v.destroying;
  mapped = v.mapped;
  open_registered = v.open_registered;
  new_unregistered = v.new_unregistered;
  quiet = v.quiet;
  lent = v.lent;
}

pub settle-Inv :
    (s : Life) → Course s → ((holders s == 0) ≡ false → s.alive ≡ true) → Returns Inv (settle s)
unfolding settle holders
settle-Inv s v kept =
    settled Inv s.alive (holders s == 0) (is_disconnected s.state) (not s.registered)
      (record s { alive = false }) s
      (λ up last.
        let (a, b) = deletable s v (ground (arith, last)) in
        (a, ap not b, record { course = buried-Course s v; living = ap not (sym last) }))
      (λ up more. record { course = v; living = up ∙ ap not (sym more) })
      (λ down. record { course = v; living = ground (arith, down, kept) })

pub takes-Inv :
    (s : Life) → Inv s → CanHappen takes s → Inv (record s { queue = []; batch = s.queue })
unfolding holders
takes-Inv s w h =
    let v = w.course in
    let living = w.living in
    let a = ap (tally is_establishing) h.0.0 in
    let b = ap (tally is_destroying) h.0.0 in
    let c = ap (tally is_borrow) h.0.0 in
    let d = ap (tally is_shared) h.0.0 in
    record {
      course = record {
        establishing = omega (arith, v.establishing, a);
        destroying = omega (arith, v.destroying, b);
        mapped = v.mapped;
        open_registered = v.open_registered;
        new_unregistered = v.new_unregistered;
        quiet = v.quiet;
        lent = λ z. ground (arith, v.lent z, c);
      };
      living = ground (arith, living, d);
    }

-- What the course does not look at.
pub steady-Course :
    (ran : List Task) (removed : ℕ) (guarded : Bool) (s : Life)
    → Course s
    → Course (record s { ran = ran; removed = removed; guarded = guarded })
steady-Course ran removed guarded s v = record {
  establishing = v.establishing;
  destroying = v.destroying;
  mapped = v.mapped;
  open_registered = v.open_registered;
  new_unregistered = v.new_unregistered;
  quiet = v.quiet;
  lent = v.lent;
}

pub handled-Course :
    (n a b c m : ℕ) (s : Life)
    → Course s
    → (n ≡ 0 → borrowed (record s { closing = a; queuing = b; shutting = c; calling = m }) ≡ 0)
    → Course (record s { handles = n; closing = a; queuing = b; shutting = c; calling = m })
handled-Course n a b c m s v lent = record {
  establishing = v.establishing;
  destroying = v.destroying;
  mapped = v.mapped;
  open_registered = v.open_registered;
  new_unregistered = v.new_unregistered;
  quiet = v.quiet;
  lent = lent;
}
