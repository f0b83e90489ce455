-- ===== src/EventLoop/Calls.antt =====
-- What a `runInLoop` of SrcFile/EventLoop.c comes to, in the loop's thread and in another.
use simple_net_base.Prelude.{
  ℕ, ◌≡◌, refl, Bool, true, false, ok, Result, Returns, ◌==◌, if◌then◌else◌,
}
use simple_net_base.EventLoop.{EventLoop, queue_in_loop, run_in_loop}

chosen-Returns {ℓ} :
    {S : Type ℓ} (P : S → Type 0) (b : Bool) (now : Result S) (s : S)
    → (b ≡ true → Returns P now)
    → (b ≡ false → P s)
    → Returns P (if b then now else ok s)
chosen-Returns P true now s here there = here refl
chosen-Returns P false now s here there = there refl

pub run_in_loop-Returns {ℓ} :
    {F : Type 0} {S : Type ℓ} (P : S → Type 0) (caller : ℕ) (f : F) (now : Result S)
    (put : EventLoop F → S) (l : EventLoop F)
    → ((l.thread_id == caller) ≡ true → Returns P now)
    → ((l.thread_id == caller) ≡ false → P (put (queue_in_loop caller f l)))
    → Returns P (run_in_loop caller f now put l)
unfolding run_in_loop
run_in_loop-Returns P caller f now put l here there =
    chosen-Returns P (l.thread_id == caller) now (put (queue_in_loop caller f l)) here there
