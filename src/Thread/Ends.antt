-- ===== src/Thread/Ends.antt =====
-- Each thread of SrcFile/Thread.c that has been started ends once.
use simple_net_base.Prelude.{ℕ, ◌+◌, ◌≡◌, true, Option, none, some, arith, if◌then◌else◌, ok}
use simple_net_base.Thread.{Thread, start, join, destroy}

-- It has been joined as often as it says, and detached not before the destructor.
pub record Inv (t : Thread) : Type 0 where
  pub joined_once : t.joins ≡ (if t.joined then 1 else 0)
  pub attached : t.detaches ≡ 0
  pub joined_late : t.joined ≡ true → t.started ≡ true

pub start-Inv : (created : Option ℕ) (t t' : Thread) → Inv t → start created t ≡ ok t' → Inv t'
unfolding start
start-Inv none t t' v e = ground arith
start-Inv (some tid) t t' v e = ground arith

pub join-Inv : (t t' : Thread) → Inv t → join t ≡ ok t' → Inv t'
unfolding join
join-Inv t t' v e = ground arith

-- At the end a thread that has been started was joined or detached, once, and no other was.
pub destroy-ended :
    (t : Thread) → Inv t → (destroy t).joins + (destroy t).detaches ≡ (if t.started then 1 else 0)
unfolding destroy
destroy-ended t v = ground arith
