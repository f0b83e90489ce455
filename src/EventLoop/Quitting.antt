-- ===== src/EventLoop/Quitting.antt =====
-- When `quit` of SrcFile/EventLoop.c does not end `loop`.
use simple_net_base.Prelude.{
  ℕ, ◌≡◌, ◌∙◌, refl, sym, ap, Bool, true, false, List, Result, ok, assert, ◌>>=◌, ◌>>◌, Bool-cases,
  inl, inr, ◌==◌, if◌then◌else◌, not,
}
use simple_net_base.Poller.{WaitResult}
use simple_net_base.EventLoop.{
  EventLoop, Host, quit_loop, wakeup, is_in_loop_thread, loop, loop_from,
}
use simple_net_base.EventLoop.Rounds.{HostLaws}

module _ {F W : Type 0} (h : Host F W) (laws : HostLaws h) where
  open h use {get, put}

  -- `loop` once `quit_` is false.
  abbrev running : List WaitResult → W → EventLoop F → Result (W × Bool)
  running es w l =
      assert (not l.looping)
      >> (loop_from h es (put (record l { looping = true }) w) >>= λ (v, over).
          ok (if over then put (record (get v) { looping = false }) v else v, over))

  loop-running :
      (es : List WaitResult) (l : EventLoop F) (w : W)
      → loop h es (put l w) ≡ running es w (record l { quit = false })
  unfolding loop
  loop-running es l w =
      rw (laws.get-put l w, laws.put-put l (record l { looping = true; quit = false }) w) refl

  -- Two loops that differ in `quit_` alone.
  loop-same :
      (es : List WaitResult) (l m : EventLoop F) (w : W)
      → record l { quit = false } ≡ record m { quit = false }
      → loop h es (put l w) ≡ loop h es (put m w)
  loop-same es l m w e = loop-running es l w ∙ ap (running es w) e ∙ sym (loop-running es m w)

  -- In a host that gives back the loop that it was last given: a call of `quit` before `loop`, from any thread,
  -- has no effect on the loop but the wakeup that another thread writes: the loop then goes on as if
  -- it had not been asked to quit, whatever its waits return.
  pub loop-forgets_quit :
      (caller : ℕ) (es : List WaitResult) (w : W)
      → loop h es (put (quit_loop caller (get w)) w)
        ≡ loop h es (put (if is_in_loop_thread caller (get w) then get w else wakeup (get w)) w)
  unfolding quit_loop wakeup is_in_loop_thread
  loop-forgets_quit caller es w = elim (Bool-cases ((get w).thread_id == caller)) [
    | inl own ↦ rw own (loop-same es _ _ w refl)
    | inr other ↦ rw other (loop-same es _ _ w refl)
  ]
