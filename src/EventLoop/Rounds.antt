-- ===== src/EventLoop/Rounds.antt =====
-- `doPendingFunctors` of SrcFile/EventLoop.c over any host.
use simple_net_base.Prelude.{
  ◌≡◌, ◌∙◌, ap, false, List, [], ◌∷◌, ◌++◌, ok, Returns, Returns-bind, Returns-mono,
}
use mathlib.Core.List.{append_assoc, append-nil}
use simple_net_base.EventLoop.{EventLoop, Host, call_all, do_pending_functors}

-- The loop that a host holds can be read back after it is written, and the last write counts.
pub record HostLaws {F W : Type 0} (h : Host F W) : Type 0 where
  pub get-put : (l : EventLoop F) (w : W) → h.get (h.put l w) ≡ l
  pub put-put : (l m : EventLoop F) (w : W) → h.put m (h.put l w) ≡ h.put m w

-- Calling a functor returns, and queues `spawn f` behind what is queued.
abbrev pub Spawns : {F W : Type 0} → Host F W → (F → List F) → Type 0
Spawns {F} {W} h spawn =
    (f : F) (w : W)
    → Returns (λ v. (h.get v).pending_functors ≡ (h.get w).pending_functors ++ spawn f) (h.call f w)

abbrev pub spawned : {F : Type 0} → (F → List F) → List F → List F
spawned spawn [] = []
spawned spawn (f ∷ fs) = spawn f ++ spawned spawn fs

module _ {F W : Type 0} (h : Host F W) (spawn : F → List F) (sp : Spawns h spawn) where
  call_all-spawned :
      (fs : List F) (w : W)
      → Returns
          (λ v. (h.get v).pending_functors ≡ (h.get w).pending_functors ++ spawned spawn fs)
          (call_all h fs w)
  unfolding call_all
  call_all-spawned [] w = simp append-nil
  call_all-spawned (f ∷ fs) w = Returns-bind _ _ (h.call f w) (call_all h fs) (sp f w) λ v p.
      Returns-mono _ _ (call_all h fs v) (call_all-spawned fs v) λ u q.
        q
        ∙ ap (λ l. l ++ spawned spawn fs) p
        ∙ append_assoc (h.get w).pending_functors (spawn f) (spawned spawn fs)

  abbrev pub Drained : W → W → Type 0
  Drained w v =
      ((h.get v).pending_functors ≡ spawned spawn (h.get w).pending_functors)
      × ((h.get v).calling_pending_functors ≡ false)

  -- If every functor's call returns and queues its own further functors behind what is queued, then
  -- `doPendingFunctors` returns, what is queued after it is what the functors queued before it spawn, one
  -- after the other in queue order (so none of these runs in the same round), and the flag is off.
  pub do_pending_functors-spawned :
      HostLaws h → (w : W) → Returns (Drained w) (do_pending_functors h w)
  unfolding do_pending_functors
  do_pending_functors-spawned laws w =
      Returns-bind _ (Drained w) _
        (λ v. ok (h.put (record (h.get v) { calling_pending_functors = false }) v))
        (call_all-spawned (h.get w).pending_functors _)
        λ v q. (
          ap (λ l. l.pending_functors) (laws.get-put _ v)
              ∙ q
              ∙ ap (λ l. l.pending_functors ++ spawned spawn (h.get w).pending_functors)
                  (laws.get-put _ w),
          ap (λ l. l.calling_pending_functors) (laws.get-put _ v),
        )
