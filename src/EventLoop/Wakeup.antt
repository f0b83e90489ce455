-- ===== src/EventLoop/Wakeup.antt =====
-- The wakeup protocol of SrcFile/EventLoop.c: the loop thread and any number of others that call
-- `queueInLoop`, interleaved. The push under the mutex and the write that follows it are two steps.
use simple_net_base.Prelude.{ℕ, ◌+◌, ◌-◌, ◌<◌, ◌≡◌, ◌≢◌, true, false, [], ◌∷◌, ◌++◌, arith}
use simple_net_base.EventLoop.{EventLoop, queue_in_loop, wakeup, handle_read}

-- Where the loop thread is: in `epoll_wait`, handling events, or calling functors.
pub data Phase : Type 0 where
  polling handling calling : Phase

module _ {F : Type 0} where
  -- The two halves of another thread's `queueInLoop`.
  unfoldable pub push : F → EventLoop F → EventLoop F
  push f l = record l { pending_functors = l.pending_functors ++ f ∷ [] }

  pub queue_in_loop-push :
      (caller : ℕ) (f : F) (l : EventLoop F)
      → l.thread_id ≢ caller
      → queue_in_loop caller f l ≡ wakeup (push f l)
  unfolding queue_in_loop push
  queue_in_loop-push caller f l other = ground arith

  -- The first and last assignments of `doPendingFunctors`, with the swap.
  unfoldable pub start_calling : EventLoop F → EventLoop F
  start_calling l = record l { calling_pending_functors = true; pending_functors = [] }

  unfoldable pub stop_calling : EventLoop F → EventLoop F
  stop_calling l = record l { calling_pending_functors = false }

module _ (F : Type 0) where
  pub record System : Type 0 where
    pub loop : EventLoop F
    pub phase : Phase
    pub in_flight : ℕ  -- other threads between their push and their write

  abbrev with : System → EventLoop F → Phase → ℕ → System
  with s l p n = record { loop = l; phase = p; in_flight = n }

  pub data Step (s t : System) : Type 0 where
    others_push : (f : F) → t ≡ with s (push f s.loop) s.phase (s.in_flight + 1) → Step s t
    others_wake : 0 < s.in_flight → t ≡ with s (wakeup s.loop) s.phase (s.in_flight - 1) → Step s t
    queue :
        (f : F)
        → s.phase ≢ polling
        → t ≡ with s (queue_in_loop s.loop.thread_id f s.loop) s.phase s.in_flight
        → Step s t
    poll_returns : s.phase ≡ polling → t ≡ with s s.loop handling s.in_flight → Step s t
    read_wakeup :
        s.phase ≡ handling → t ≡ with s (handle_read s.loop) handling s.in_flight → Step s t
    calls_start :
        s.phase ≡ handling → t ≡ with s (start_calling s.loop) calling s.in_flight → Step s t
    calls_end : s.phase ≡ calling → t ≡ with s (stop_calling s.loop) polling s.in_flight → Step s t

  pub data Reach (s : System) : System → Type 0 where
    here : Reach s s
    next : {t u : System} → Reach s t → Step t u → Reach s u

  -- Outside the handling phase a queued functor has a write behind it, or one on its way.
  record Inv (s : System) : Type 0 where
    flag_on : s.phase ≡ calling → s.loop.calling_pending_functors ≡ true
    flag_off : s.phase ≢ calling → s.loop.calling_pending_functors ≡ false
    noticed : s.phase ≢ handling → s.loop.pending_functors ≢ [] → 0 < s.loop.wakeups + s.in_flight

  Step-Inv : (s t : System) → Step s t → Inv s → Inv t
  unfolding push wakeup queue_in_loop handle_read start_calling stop_calling
  Step-Inv s t (others_push f e) v = ground arith
  Step-Inv s t (others_wake h e) v = ground arith
  Step-Inv s t (queue f ne e) v = ground arith
  Step-Inv s t (poll_returns h e) v = ground arith
  Step-Inv s t (read_wakeup h e) v = ground arith
  Step-Inv s t (calls_start h e) v = ground arith
  Step-Inv s t (calls_end h e) v = ground arith

  Reach-Inv : {s t : System} → Inv s → Reach s t → Inv t
  Reach-Inv v here = v
  Reach-Inv v (next r st) = Step-Inv _ _ st (Reach-Inv v r)

  -- The loop as it goes into its first wait with nothing queued.
  abbrev pub IsStart : System → Type 0
  IsStart s =
      (s.phase ≡ polling)
      × (s.loop.pending_functors ≡ [])
      × (s.loop.calling_pending_functors ≡ false)

  -- From a loop that goes into its first wait with an empty queue, in every interleaving of the loop
  -- thread with other threads that queue functors: whenever the loop thread waits for events and a
  -- functor is queued, the wakeup descriptor has been written and not read, or a thread that has
  -- pushed is yet to write it; so no queued functor waits for the poll to time out.
  pub Reach-noticed :
      {s t : System}
      → IsStart s
      → Reach s t
      → t.phase ≡ polling
      → t.loop.pending_functors ≢ []
      → 0 < t.loop.wakeups + t.in_flight
  Reach-noticed {s} {t} start r p ne =
      (Reach-Inv {s = s} {t = t}
          (record {
            flag_on = λ e. ground arith;
            flag_off = λ e. start.2;
            noticed = λ e n. absurd (n start.1);
          })
          r).noticed
        (λ e. cc) ne
