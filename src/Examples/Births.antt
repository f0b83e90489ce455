-- ===== src/Examples/Births.antt =====
-- A thread of SrcFile/Thread.c that is started, and one that forks.
use simple_net_base.Prelude.{◌≤◌, ◌≡◌, ◌⊎◌, refl, [], ◌∷◌, arith}
use simple_net_base.Thread.Birth.{
  System, init, Run, stop, further, creates, passes, writes, counts_down, names, returns,
  deletes_data,
}
use simple_net_base.Thread.Birth.Ownership.{Inv, Moves, IsOver, Run-starts}
use simple_net_base.Thread.Current
use simple_net_base.Thread.Current.{unknown, run, tid, looks_up, forks}

-- The new thread has started to call its function while `start` still waits.
abbrev prompt : (t : System) × Run 4711 init 7 t
prompt = (
  _,
  further
      (further
        (further
          (further
            (further (further (further stop (creates refl)) (writes refl)) (counts_down refl))
            (names refl))
          (passes refl refl))
        (returns refl))
      (deletes_data refl),
)

Run-starts_example : Inv 4711 prompt.0 × (7 ≤ 8) × (Moves 4711 prompt.0 ⊎ IsOver prompt.0)
Run-starts_example = Run-starts (omega arith) prompt.1

-- A child of a child.
grandchild :
    (tid (run (looks_up ∷ forks 12 ∷ looks_up ∷ forks 13 ∷ []) (unknown 11))).cached_tid ≡ 13
unfolding run Current.happen Current.after_fork tid Current.cache_tid
grandchild = refl
