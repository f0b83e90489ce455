-- ===== src/EventLoopThread/Closing.antt =====
-- The destructor of SrcFile/EventLoopThread.c in one thread, and in the other `loop` of SrcFile/EventLoop.c and
-- the end of `threadFunc`, one access to shared state a step. Nobody else calls `quit`.
-- The second reading of `loop_`, for the call of `quit`, is part of that call's first step: `loop_` is set to NULL only after a quit.
use simple_net_base.Prelude.{ℕ, suc, ◌≡◌, ◌≢◌, Bool, true, false, Option, none, some}
pub mod Outcome
pub mod Lost

-- The destructor, by what comes next; `quit` of the loop takes two steps.
pub data Closer : Type 0 where
  testing : Closer  -- loop_ != NULL
  quitting : Closer  -- quit_ = true
  waking : Closer  -- isInLoopThread() and wakeup()
  joining : Closer
  closed : Closer
  crashed : Closer  -- it has used a loop that is gone

-- The loop's thread, by what comes next.
pub data Looper : Type 0 where
  entering : Looper  -- quit_ = false, in `loop`
  polling : Looper  -- while(!quit_)
  leaving : Looper  -- loop_ = NULL
  dying : Looper  -- the loop's destructor
  finished : Looper

pub record State : Type 0 where
  pub loop : Option ℕ  -- loop_
  pub quit : Bool  -- quit_ of the loop
  pub closing : Closer
  pub looping : Looper

abbrev pub is_alive : Looper → Bool
is_alive Looper.finished = false
is_alive _ = true

-- After `startLoop`: the thread is about to call `loop`, or is in its while loop.
abbrev pub before_loop : ℕ → State
before_loop l = record {
  loop = some l;
  quit = false;
  closing = Closer.testing;
  looping = Looper.entering;
}

abbrev pub in_loop : ℕ → State
in_loop l = record (before_loop l) { looping = Looper.polling }

pub data Move (s : State) : State → Type 0 where
  tests_some :
      s.closing ≡ Closer.testing → s.loop ≢ none → Move s (record s { closing = Closer.quitting })
  tests_none :
      s.closing ≡ Closer.testing → s.loop ≡ none → Move s (record s { closing = Closer.closed })
  sets_quit :
      s.closing ≡ Closer.quitting
      → is_alive s.looping ≡ true
      → Move s (record s { closing = Closer.waking; quit = true })
  sets_dead :
      s.closing ≡ Closer.quitting
      → is_alive s.looping ≡ false
      → Move s (record s { closing = Closer.crashed })
  wakes :
      s.closing ≡ Closer.waking
      → is_alive s.looping ≡ true
      → Move s (record s { closing = Closer.joining })
  wakes_dead :
      s.closing ≡ Closer.waking
      → is_alive s.looping ≡ false
      → Move s (record s { closing = Closer.crashed })
  joins :
      s.closing ≡ Closer.joining
      → s.looping ≡ Looper.finished
      → Move s (record s { closing = Closer.closed })
  enters :
      s.looping ≡ Looper.entering → Move s (record s { looping = Looper.polling; quit = false })
  leaves :
      s.looping ≡ Looper.polling → s.quit ≡ true → Move s (record s { looping = Looper.leaving })
  clears : s.looping ≡ Looper.leaving → Move s (record s { looping = Looper.dying; loop = none })
  dies : s.looping ≡ Looper.dying → Move s (record s { looping = Looper.finished })

-- A move, or a round of the loop that has not been asked to quit.
pub data Step (s : State) : State → Type 0 where
  moves : {t : State} → Move s t → Step s t
  goes_round : s.looping ≡ Looper.polling → s.quit ≡ false → Step s s

pub data Steps (s : State) : State → Type 0 where
  here : Steps s s
  next : {t u : State} → Steps s t → Step t u → Steps s u

-- A run of steps, with the number of its moves.
pub data Run (s : State) : ℕ → State → Type 0 where
  stop : Run s 0 s
  further : {n : ℕ} {t u : State} → Run s n t → Move t u → Run s (suc n) u
  round : {n : ℕ} {t : State} → Run s n t → t.looping ≡ Looper.polling → t.quit ≡ false → Run s n t
