-- ===== src/EventLoopThread/Closing/Lost.antt =====
-- When the destructor of SrcFile/EventLoopThread.c never returns: its `quit` came before `loop` had begun.
use simple_net_base.Prelude.{◌≡◌, ◌≢◌, Bool, true, false, arith}
use simple_net_base.EventLoopThread.Closing.{
  State, Closer, Looper, Move, tests_some, tests_none, sets_quit, sets_dead, wakes, wakes_dead,
  joins, enters, leaves, clears, dies, Step, moves, goes_round, Steps, here, next,
}

-- The loop goes round, not asked to quit, or is about to begin.
abbrev goes_on : Looper → Bool → Bool
goes_on Looper.entering _ = true
goes_on Looper.polling false = true
goes_on _ _ = false

abbrev has_quit : Closer → Bool
has_quit Closer.waking = true
has_quit Closer.joining = true
has_quit _ = false

-- The destructor has called `quit`, and the loop does not know.
pub record IsLost (s : State) : Type 0 where
  pub in_wait : has_quit s.closing ≡ true
  pub unheard : goes_on s.looping s.quit ≡ true

Move-IsLost : {s t : State} → Move s t → IsLost s → IsLost t
Move-IsLost (tests_some e f) v = ground arith
Move-IsLost (tests_none e f) v = ground arith
Move-IsLost (sets_quit e f) v = ground arith
Move-IsLost (sets_dead e f) v = ground arith
Move-IsLost (wakes e f) v = ground arith
Move-IsLost (wakes_dead e f) v = ground arith
Move-IsLost (joins e f) v = ground arith
Move-IsLost (enters e) v = ground arith
Move-IsLost (leaves e f) v = ground arith
Move-IsLost (clears e) v = ground arith
Move-IsLost (dies e) v = ground arith

Step-IsLost : {s t : State} → Step s t → IsLost s → IsLost t
Step-IsLost (moves m) v = Move-IsLost m v
Step-IsLost (goes_round e f) v = v

Steps-IsLost : {s t : State} → IsLost s → Steps s t → IsLost t
Steps-IsLost v here = v
Steps-IsLost v (next r st) = Step-IsLost st (Steps-IsLost v r)

-- If the destructor has set `quit_` and the thread has not yet entered `loop` (or has entered it since, and so
-- reset `quit_`), then whatever the two threads do, the destructor does not return, as long as nobody else
-- calls `quit`.
pub Steps-never_closes : {s t : State} → IsLost s → Steps s t → t.closing ≢ Closer.closed
Steps-never_closes v r e = ground (arith, (Steps-IsLost v r).in_wait)
