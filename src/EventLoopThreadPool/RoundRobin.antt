-- ===== src/EventLoopThreadPool/RoundRobin.antt =====
-- The choice of loops in SrcFile/EventLoopThreadPool.c is fair.
use simple_net_base.Prelude.{
  ℕ, zero, suc, ◌+◌, ◌≤◌, ◌<◌, ◌≡◌, ◌∙◌, refl, sym, ap, true, false, List, [], ◌∷◌, arith, length,
  take, drop, Result, ok, Returns, ◌⊎◌, inl, inr, ◌>>=◌, if◌then◌else◌, leb,
}
use simple_net_base.EventLoopThreadPool.{EventLoopThreadPool, get_next_loop, is_empty, loop_at}

-- Calls of `getNextLoop` in a row.
unfoldable pub next_loops : ℕ → EventLoopThreadPool → Result (List ℕ × EventLoopThreadPool)
next_loops zero p = ok ([], p)
next_loops (suc n) p = get_next_loop p >>= λ (l, q). next_loops n q >>= λ (ls, r). ok (l ∷ ls, r)

-- A started pool with a position in its list of loops.
abbrev pub IsReady : EventLoopThreadPool → Type 0
IsReady p = (p.started ≡ true) × (p.next < length p.loops)

abbrev pub wrap : ℕ → ℕ → ℕ
wrap len i = if leb len i then 0 else i

abbrev pub moved : EventLoopThreadPool → ℕ → EventLoopThreadPool
moved p k = record p { next = wrap (length p.loops) (p.next + k) }

-- The loop at a position.
abbrev At : List ℕ → ℕ → ℕ → Type 0
At ls i l = (loop_at ls i ≡ ok l) × (drop i ls ≡ l ∷ drop (suc i) ls)

at : (ls : List ℕ) (i : ℕ) → i < length ls → (l : ℕ) × At ls i l
at [] i h = elim h [ ]
at (x ∷ xs) zero h = (x, (refl, refl))
at (x ∷ xs) (suc i) h = at xs i (omega arith)

not_empty : (ls : List ℕ) (i : ℕ) → i < length ls → is_empty ls ≡ false
not_empty [] i h = elim h [ ]
not_empty (x ∷ xs) i h = refl

get_next_loop-at :
    (p : EventLoopThreadPool) (l : ℕ)
    → IsReady p
    → loop_at p.loops p.next ≡ ok l
    → get_next_loop p ≡ ok (l, moved p 1)
unfolding get_next_loop
get_next_loop-at p l h e = rw (h.0, not_empty p.loops p.next h.1, e)

-- On a started pool with loops, in the next `k` calls of `getNextLoop`, as long as these do not go past the
-- end of the list of loops: the calls return, in order, the `k` loops from the current position on, and
-- the position moves by `k`, back to the first loop exactly if the end of the list has been reached.
pub next_loops-take :
    (k : ℕ) (p : EventLoopThreadPool)
    → IsReady p
    → p.next + k ≤ length p.loops
    → next_loops k p ≡ ok (take k (drop p.next p.loops), moved p k)
unfolding next_loops
next_loops-take zero p h le =
    let still : wrap (length p.loops) (p.next + 0) ≡ p.next = ground (arith, h.1) in
    ap (λ n. ok ([], record p { next = n })) (sym still)
next_loops-take (suc zero) p h le =
    let (l, (e, d)) = at p.loops p.next h.1 in rw (get_next_loop-at p l h e, d) refl
next_loops-take (suc (suc k)) p h le =
    let (l, (e, d)) = at p.loops p.next h.1 in
    let q : EventLoopThreadPool = record p { next = suc p.next } in
    let step : wrap (length p.loops) (p.next + 1) ≡ suc p.next = ground (arith, le) in
    let first : get_next_loop p ≡ ok (l, q) =
      get_next_loop-at p l h e ∙ ap (λ n. ok (l, record p { next = n })) step in
    let rest : next_loops (suc k) q
        ≡ ok (take (suc k) (drop (suc p.next) p.loops), moved q (suc k)) =
      next_loops-take (suc k) q (h.0, omega (arith, le)) (omega (arith, le)) in
    let sum : suc p.next + suc k ≡ p.next + suc (suc k) = omega arith in
    rw (first, rest, d)
      (ap
        (λ n. ok (
          l ∷ take (suc k) (drop (suc p.next) p.loops),
          record p { next = wrap (length p.loops) n },
        ))
        sum)

-- A started pool, with no loops or with a position in its list of loops.
abbrev pub IsStarted : EventLoopThreadPool → Type 0
IsStarted p = (p.started ≡ true) × ((is_empty p.loops ≡ true) ⊎ (p.next < length p.loops))

pub get_next_loop-IsStarted :
    (p : EventLoopThreadPool) → IsStarted p → Returns (λ r. IsStarted r.1) (get_next_loop p)
unfolding get_next_loop
get_next_loop-IsStarted p (on, inl none_there) = rw (on, none_there) (refl, inl none_there)
get_next_loop-IsStarted p (on, inr h) =
    let (l, (e, d)) = at p.loops p.next h in
    rw (get_next_loop-at p l (on, h) e) (on, inr (ground (arith, h)))
