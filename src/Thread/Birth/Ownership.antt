-- ===== src/Thread/Birth/Ownership.antt =====
-- What the two threads of SrcFile/Thread.c can rely on while one starts the other.
use simple_net_base.Prelude.{
  ℕ, ◌+◌, ◌≤◌, ◌<◌, ◌≡◌, ◌⊎◌, inl, inr, refl, Bool, true, false, ◌||◌, arith, if◌then◌else◌,
}
use simple_net_base.Thread.Birth.{
  Starter, Worker, System, init, Move, creates, creation_fails, passes, holds, fails, writes,
  counts_down, names, returns, throws, deletes_data, Run, stop, further,
}

abbrev is_creating : Starter → Bool
is_creating Starter.creating = true
is_creating Starter.refused = true
is_creating _ = false

abbrev is_refused : Starter → Bool
is_refused Starter.refused = true
is_refused _ = false

abbrev is_failed : Starter → Bool
is_failed Starter.failed = true
is_failed _ = false

abbrev is_past_latch : Starter → Bool
is_past_latch Starter.asserting = true
is_past_latch Starter.started = true
is_past_latch _ = false

abbrev is_unborn : Worker → Bool
is_unborn Worker.unborn = true
is_unborn _ = false

abbrev is_ended : Worker → Bool
is_ended Worker.ended = true
is_ended _ = false

abbrev has_written : Worker → Bool
has_written Worker.unborn = false
has_written Worker.writing = false
has_written _ = true

abbrev has_counted : Worker → Bool
has_counted Worker.counting = false
has_counted w = has_written w

-- The ThreadData lives until the new thread has ended, or until there is none, and is deleted once; the
-- identifier is there before the count is 0, and `start` goes on after that.
pub record Inv (id : ℕ) (s : System) : Type 0 where
  pub born : is_unborn s.running ≡ is_creating s.starting
  pub owned : s.data_alive ≡ (if is_ended s.running || is_refused s.starting then false else true)
  pub deleted : s.deletes ≡ (if s.data_alive then 0 else 1)
  pub marked : s.started ≡ (if is_refused s.starting then false else true)
  pub written : has_written s.running ≡ true → s.tid ≡ id
  pub counted : s.latch ≡ (if has_counted s.running then 0 else 1)
  pub late : is_past_latch s.starting ≡ true → has_counted s.running ≡ true
  pub sound : is_failed s.starting ≡ false

init-Inv : {id : ℕ} → Inv id init
init-Inv = ground arith

module _ {id : ℕ} (pos : 0 < id) where
  Move-Inv : {s t : System} → Move id s t → Inv id s → Inv id t
  Move-Inv (creates e) v = ground arith
  Move-Inv (creation_fails e) v = ground arith
  Move-Inv (passes e f) v = ground arith
  Move-Inv (holds e f) v = ground arith
  Move-Inv (fails e f) v = ground arith
  Move-Inv (writes e) v = ground arith
  Move-Inv (counts_down e) v = ground arith
  Move-Inv (names e) v = ground arith
  Move-Inv (returns e) v = ground arith
  Move-Inv (throws e) v = ground arith
  Move-Inv (deletes_data e) v = ground arith

  Run-Inv : {n : ℕ} {t : System} → Run id init n t → Inv id t
  Run-Inv stop = init-Inv
  Run-Inv (further r m) = Move-Inv m (Run-Inv r)

-- An upper bound of the moves that are left.
abbrev starter_left : Starter → ℕ
starter_left Starter.creating = 8
starter_left Starter.waiting = 2
starter_left Starter.asserting = 1
starter_left _ = 0

abbrev worker_left : Worker → ℕ
worker_left Worker.writing = 5
worker_left Worker.counting = 4
worker_left Worker.naming = 3
worker_left Worker.calling = 2
worker_left Worker.deleting = 1
worker_left _ = 0

abbrev left : System → ℕ
left s = starter_left s.starting + worker_left s.running

module _ {id : ℕ} (pos : 0 < id) where
  Move-left : {s t : System} → Move id s t → Inv id s → left t < left s
  Move-left (creates e) v = ground arith
  Move-left (creation_fails e) v = ground arith
  Move-left (passes e f) v = ground arith
  Move-left (holds e f) v = ground arith
  Move-left (fails e f) v = ground arith
  Move-left (writes e) v = ground arith
  Move-left (counts_down e) v = ground arith
  Move-left (names e) v = ground arith
  Move-left (returns e) v = ground arith
  Move-left (throws e) v = ground arith
  Move-left (deletes_data e) v = ground arith

  Run-left : {n : ℕ} {t : System} → Run id init n t → n + left t ≤ 8
  Run-left stop = omega arith
  Run-left (further r m) = omega (arith, Run-left r, Move-left m (Run-Inv pos r))

abbrev pub Moves : ℕ → System → Type 0
Moves id s = (t : System) × Move id s t

-- There is no new thread, or it has been started and has come to its end.
abbrev pub IsOver : System → Type 0
IsOver s =
    (s.starting ≡ Starter.refused)
    ⊎ ((s.starting ≡ Starter.started)
        × ((s.running ≡ Worker.ended) ⊎ (s.running ≡ Worker.aborting)))

module _ {id : ℕ} (pos : 0 < id) {s : System} (v : Inv id s) where
  worker_moves :
      (w : Worker)
      → s.running ≡ w
      → is_unborn w ≡ false
      → Moves id s ⊎ ((w ≡ Worker.ended) ⊎ (w ≡ Worker.aborting))
  worker_moves Worker.unborn e h = cc
  worker_moves Worker.writing e h = inl (_, writes e)
  worker_moves Worker.counting e h = inl (_, counts_down e)
  worker_moves Worker.naming e h = inl (_, names e)
  worker_moves Worker.calling e h = inl (_, returns e)
  worker_moves Worker.deleting e h = inl (_, deletes_data e)
  worker_moves Worker.ended e h = inr (inl refl)
  worker_moves Worker.aborting e h = inr (inr refl)

  progress : (k : Starter) → s.starting ≡ k → Moves id s ⊎ IsOver s
  progress Starter.creating e = inl (_, creates e)
  progress Starter.waiting e = elim (worker_moves s.running refl (ground (arith, v.born))) [
    | inl m ↦ inl m
    | inr over ↦ inl (
      _,
      passes e
          (elim over [ inl f ↦ ground (arith, v.counted) | inr f ↦ ground (arith, v.counted) ]),
    )
  ]
  progress Starter.asserting e = inl (_, holds e (ground (arith, v.written, v.late)))
  progress Starter.started e = elim (worker_moves s.running refl (ground (arith, v.born))) [
    | inl m ↦ inl m
    | inr over ↦ inr (inr (e, over))
  ]
  progress Starter.refused e = inr (inl e)
  progress Starter.failed e = absurd (ground (arith, v.sound))

-- For a new thread with a positive identifier: every interleaving of `start` and `startThread` takes at most 8
-- steps, in which `start` goes on only after the identifier has been written and never stops at
-- its assertion, and the ThreadData lives until the thread has ended or could not be made and is then
-- deleted, once; it can go on unless there is no thread or it has been started and has ended or thrown.
pub Run-starts :
    {id n : ℕ} {t : System}
    → 0 < id
    → Run id init n t
    → Inv id t × (n ≤ 8) × (Moves id t ⊎ IsOver t)
Run-starts {t = t} pos r =
    (Run-Inv pos r, omega (arith, Run-left pos r), progress pos (Run-Inv pos r) t.starting refl)
