-- ===== src/EventLoopThread/Closing/Outcome.antt =====
-- How the destructor of SrcFile/EventLoopThread.c ends if the thread is in its loop.
use simple_net_base.Prelude.{
  ℕ, ◌+◌, ◌≤◌, ◌<◌, ◌≡◌, ◌⊎◌, inl, inr, refl, Bool, true, false, none, arith, Bool-cases,
  Option-cases,
}
use simple_net_base.EventLoopThread.Closing.{
  State, Closer, Looper, in_loop, is_alive, Move, tests_some, tests_none, sets_quit, sets_dead,
  wakes, wakes_dead, joins, enters, leaves, clears, dies, Run, stop, further, round,
}

abbrev closer_left : Closer → ℕ
closer_left Closer.testing = 4
closer_left Closer.quitting = 3
closer_left Closer.waking = 2
closer_left Closer.joining = 1
closer_left _ = 0

abbrev looper_left : Looper → ℕ
looper_left Looper.entering = 4
looper_left Looper.polling = 3
looper_left Looper.leaving = 2
looper_left Looper.dying = 1
looper_left Looper.finished = 0

abbrev left : State → ℕ
left s = closer_left s.closing + looper_left s.looping

-- What the destructor has done: asked the loop to quit, and come to its end.
abbrev has_asked : Closer → Bool
has_asked Closer.waking = true
has_asked Closer.joining = true
has_asked _ = false

abbrev is_closed : Closer → Bool
is_closed Closer.closed = true
is_closed _ = false

abbrev is_crashed : Closer → Bool
is_crashed Closer.crashed = true
is_crashed _ = false

abbrev has_begun : Looper → Bool
has_begun Looper.entering = false
has_begun _ = true

abbrev has_cleared : Looper → Bool
has_cleared Looper.dying = true
has_cleared Looper.finished = true
has_cleared _ = false

record Inv (s : State) : Type 0 where
  begun : has_begun s.looping ≡ true
  asked : has_asked s.closing ≡ true → s.quit ≡ true
  over : is_closed s.closing ≡ true → has_cleared s.looping ≡ true
  gone : is_crashed s.closing ≡ true → is_alive s.looping ≡ false
  emptied : s.loop ≡ none → has_cleared s.looping ≡ true

Move-Inv : {s t : State} → Move s t → Inv s → Inv t
Move-Inv (tests_some e f) v = ground arith
Move-Inv (tests_none e f) v = ground arith
Move-Inv (sets_quit e f) v = ground arith
Move-Inv (sets_dead e f) v = ground arith
Move-Inv (wakes e f) v = ground arith
Move-Inv (wakes_dead e f) v = ground arith
Move-Inv (joins e f) v = ground arith
Move-Inv (enters e) v = ground arith
Move-Inv (leaves e f) v = ground arith
Move-Inv (clears e) v = ground arith
Move-Inv (dies e) v = ground arith

Move-left : {s t : State} → Move s t → left t < left s
Move-left (tests_some e f) = ground arith
Move-left (tests_none e f) = ground arith
Move-left (sets_quit e f) = ground arith
Move-left (sets_dead e f) = ground arith
Move-left (wakes e f) = ground arith
Move-left (wakes_dead e f) = ground arith
Move-left (joins e f) = ground arith
Move-left (enters e) = ground arith
Move-left (leaves e f) = ground arith
Move-left (clears e) = ground arith
Move-left (dies e) = ground arith

Run-Inv : {l n : ℕ} {t : State} → Run (in_loop l) n t → Inv t
Run-Inv stop = ground arith
Run-Inv (further r m) = Move-Inv m (Run-Inv r)
Run-Inv (round r e f) = Run-Inv r

Run-left : {l n : ℕ} {t : State} → Run (in_loop l) n t → n + left t ≤ 7
Run-left stop = omega arith
Run-left (further r m) = omega (arith, Run-left r, Move-left m)
Run-left (round r e f) = Run-left r

abbrev pub Moves : State → Type 0
Moves s = (t : State) × Move s t

-- The destructor has returned or has used a loop that was gone, and the thread has ended.
abbrev pub IsOver : State → Type 0
IsOver s =
    ((s.closing ≡ Closer.closed) ⊎ (s.closing ≡ Closer.crashed)) × (s.looping ≡ Looper.finished)

looper_moves :
    (s : State) (k : Looper) → s.looping ≡ k → s.quit ≡ true → Moves s ⊎ (k ≡ Looper.finished)
looper_moves s Looper.entering e q = inl (_, enters e)
looper_moves s Looper.polling e q = inl (_, leaves e q)
looper_moves s Looper.leaving e q = inl (_, clears e)
looper_moves s Looper.dying e q = inl (_, dies e)
looper_moves s Looper.finished e q = inr refl

module _ {s : State} (v : Inv s) where
  after_joining :
      (k : Looper) → s.looping ≡ k → has_cleared k ≡ true → Moves s ⊎ (k ≡ Looper.finished)
  after_joining Looper.dying e h = inl (_, dies e)
  after_joining Looper.finished e h = inr refl
  after_joining k e h = cc

  progress : (c : Closer) → s.closing ≡ c → Moves s ⊎ IsOver s
  progress Closer.testing e = elim (Option-cases s.loop) [
    | inl gone ↦ inl (_, tests_none e gone)
    | inr (l, out) ↦ inl (_, tests_some e (ground (arith, out)))
  ]
  progress Closer.quitting e = elim (Bool-cases (is_alive s.looping)) [
    | inl up ↦ inl (_, sets_quit e up)
    | inr down ↦ inl (_, sets_dead e down)
  ]
  progress Closer.waking e = elim (Bool-cases (is_alive s.looping)) [
    | inl up ↦ inl (_, wakes e up)
    | inr down ↦ inl (_, wakes_dead e down)
  ]
  progress Closer.joining e = elim (looper_moves s s.looping refl (ground (arith, v.asked))) [
    | inl m ↦ inl m
    | inr over ↦ inl (_, joins e over)
  ]
  progress Closer.closed e = elim (after_joining s.looping refl (ground (arith, v.over))) [
    | inl m ↦ inl m
    | inr over ↦ inr (inl e, over)
  ]
  progress Closer.crashed e = inr (inr e, ended s.looping (ground (arith, v.gone)))
    where
      ended : (k : Looper) → is_alive k ≡ false → k ≡ Looper.finished
      ended Looper.finished h = refl
      ended k h = cc

-- If the thread is in the while loop of `loop` when the destructor begins, and nobody else calls `quit`: besides
-- the rounds of a loop that has not been asked to quit, every interleaving of the destructor and the thread takes
-- at most 7 steps, and it can go on unless the thread has ended and the destructor has returned or
-- has used the loop after its end.
pub Run-closes : {l n : ℕ} {t : State} → Run (in_loop l) n t → (n ≤ 7) × (Moves t ⊎ IsOver t)
Run-closes {t = t} r = (omega (arith, Run-left r), progress (Run-Inv r) t.closing refl)
