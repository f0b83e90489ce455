-- ===== src/EventLoopThread/Handshake.antt =====
-- What holds between the two threads of SrcFile/EventLoopThread.c as long as the loop has not quit and the thread
-- could be created.
use simple_net_base.Prelude.{ℕ, ◌≡◌, refl, Bool, true, false, Option, none, some, arith}
use simple_net_base.EventLoopThread.{
  System, Starter, Runner, Owner, init, Move, creates, locks, waits, goes_on, wakes, unlocks, reads,
  constructs, calls_back, runner_locks, publishes, notifies, runner_unlocks, is_waiting, Run, stop,
  further,
}

-- Who must have the mutex.
abbrev starter_owns : Starter → Bool
starter_owns Starter.testing = true
starter_owns Starter.unlocking = true
starter_owns _ = false

abbrev runner_owns : Runner → Bool
runner_owns Runner.publishing = true
runner_owns Runner.notifying = true
runner_owns Runner.unlocking = true
runner_owns _ = false

abbrev owner_of : Bool → Bool → Owner
owner_of true _ = Owner.starter
owner_of false true = Owner.runner
owner_of false false = Owner.free

abbrev pub published : Runner → Bool
published Runner.notifying = true
published Runner.unlocking = true
published Runner.looping = true
published _ = false

-- The notification is behind.
abbrev notified : Runner → Bool
notified Runner.unlocking = true
notified Runner.looping = true
notified _ = false

abbrev is_creating : Starter → Bool
is_creating Starter.creating = true
is_creating _ = false

abbrev is_unborn : Runner → Bool
is_unborn Runner.unborn = true
is_unborn _ = false

-- The loop has quit, or its thread has ended.
abbrev pub has_left : Runner → Bool
has_left Runner.clearing = true
has_left Runner.finished = true
has_left _ = false

abbrev past_test : Starter → Bool
past_test Starter.unlocking = true
past_test Starter.reading = true
past_test (Starter.returned o) = true
past_test _ = false

abbrev result_of : Starter → Option ℕ → Option ℕ
result_of (Starter.returned o) d = o
result_of _ d = d

pub record Inv (l : ℕ) (s : System) : Type 0 where
  pub at_most_one : starter_owns s.starting ≡ true → runner_owns s.running ≡ false
  pub owned : s.owner ≡ owner_of (starter_owns s.starting) (runner_owns s.running)
  pub born : is_unborn s.running ≡ is_creating s.starting
  pub stays : has_left s.running ≡ false
  pub out : published s.running ≡ true → s.loop ≡ some l
  pub not_out : published s.running ≡ false → s.loop ≡ none
  pub no_lost_wakeup : is_waiting s.starting ≡ true → notified s.running ≡ true → s.signaled ≡ true
  pub tested : past_test s.starting ≡ true → published s.running ≡ true
  pub result : result_of s.starting (some l) ≡ some l

Move-Inv : {l : ℕ} {s t : System} → Move l s t → Inv l s → Inv l t
Move-Inv (creates e) v = ground arith
Move-Inv (locks e f) v = ground arith
Move-Inv (waits e n) v = ground arith
Move-Inv (goes_on e n) v = ground arith
Move-Inv (wakes e g f) v = ground arith
Move-Inv (unlocks e) v = ground arith
Move-Inv (reads e) v = ground arith
Move-Inv (constructs e) v = ground arith
Move-Inv (calls_back e) v = ground arith
Move-Inv (runner_locks e f) v = ground arith
Move-Inv (publishes e) v = ground arith
Move-Inv (notifies e) v = ground arith
Move-Inv (runner_unlocks e) v = ground arith

init-Inv : {l : ℕ} → Inv l init
init-Inv = record {
  at_most_one = λ h. refl;
  owned = refl;
  born = refl;
  stays = refl;
  out = λ h. cc;
  not_out = λ h. refl;
  no_lost_wakeup = λ h n. cc;
  tested = λ h. cc;
  result = refl;
}

pub Run-Inv : {l n : ℕ} {t : System} → Run l init n t → Inv l t
Run-Inv stop = init-Inv
Run-Inv (further r m) = Move-Inv m (Run-Inv r)
