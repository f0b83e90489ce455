-- ===== src/TcpServer/Lifetime.antt =====
-- Who keeps a connection of SrcFile/TcpServer.c alive: the shared pointers to one connection after `newConnection`
-- has returned, with the server's loop, the connection's own loop and other threads interleaved. It is deleted with the
-- last pointer. The two loops differ; stopRead, startRead and the server's destructor are left out.
use simple_net_base.Prelude.{
  ℕ, ◌+◌, ◌-◌, ◌<◌, ◌≡◌, ◌⊎◌, Bool, true, false, not, List, [], ◌∷◌, ◌++◌, ◌==◌, if◌then◌else◌,
  Result, ok, fault, dangling, ◌>>=◌, ◌>>◌, assert,
}
use simple_net_base.TcpConnection.{
  State, connecting, connected, disconnecting, disconnected, is_connecting, is_connected,
  is_disconnected, is_open,
}
pub mod Counting
pub mod Course
pub mod Tasks
pub mod Owned
pub mod Freed

-- The functors of the connection's loop, by what they are bound to.
pub data Task : Type 0 where
  establishes : Task  -- connectEstablished and a pointer
  destroys : Task  -- connectDestroyed and a pointer
  closes : Task  -- forceCloseInLoop and a pointer
  tells : Task  -- a callback of the user and a pointer
  borrows : Task  -- sendInLoop or shutdownInLoop, and a bare `this`

pub record Life : Type 0 where
  pub state : State
  pub registered : Bool  -- addedToLoop_ of the channel
  pub wants : Bool  -- the channel wants events
  pub in_map : Bool  -- connections_ of the server has a pointer
  pub removals : ℕ  -- removeConnectionInLoop in the queue of the server's loop
  pub removed : ℕ  -- those that have run in its present round, whose pointers are still there
  pub queue : List Task  -- pendingFunctors_ of the connection's loop
  pub batch : List Task  -- what doPendingFunctors has still to run
  pub ran : List Task  -- what it has run in its present round
  pub handles : ℕ  -- pointers that the user has
  pub closing : ℕ  -- calls of forceClose in other threads that have tested the state and have still to set it
  pub queuing : ℕ  -- those that have set it and have still to queue their functor
  pub shutting : ℕ  -- calls of shutdown in other threads between their two assignments of the state
  pub calling : ℕ  -- calls of send or shutdown in other threads that have still to queue their functor
  pub guarded : Bool  -- handleEvent has its guard
  pub alive : Bool

-- After `newConnection`.
abbrev pub init : Life
init = record {
  state = connecting;
  registered = false;
  wants = false;
  in_map = true;
  removals = 0;
  removed = 0;
  queue = establishes ∷ [];
  batch = [];
  ran = [];
  handles = 0;
  closing = 0;
  queuing = 0;
  shutting = 0;
  calling = 0;
  guarded = false;
  alive = true;
}

abbrev pub is_shared : Task → ℕ
is_shared borrows = 0
is_shared _ = 1

abbrev pub tally : (Task → ℕ) → List Task → ℕ
tally w [] = 0
tally w (t ∷ ts) = w t + tally w ts

abbrev pub one_if : Bool → ℕ
one_if true = 1
one_if false = 0

-- How many shared pointers there are.
unfoldable pub holders : Life → ℕ
holders s =
    one_if s.in_map
    + s.removals
    + s.removed
    + tally is_shared s.queue
    + tally is_shared s.batch
    + tally is_shared s.ran
    + s.handles
    + one_if s.guarded

-- The object is used.
unfoldable pub use_it : Life → Result (Unit {0})
use_it s = if s.alive then ok tt else fault dangling

-- Some pointers have gone: with the last one the destructors of the connection and of its channel run.
unfoldable pub settle : Life → Result Life
unfolding holders
settle s =
    let gone =
      assert (is_disconnected s.state)
      >> (assert (not s.registered) >> ok (record s { alive = false })) in
    if s.alive then (if holders s == 0 then gone else ok s) else ok s

unfoldable pub post : Task → Life → Life
post t s = record s { queue = s.queue ++ t ∷ [] }

-- `handleClose`, whose close callback is `removeConnection`.
unfoldable pub handle_close : Life → Result Life
handle_close s =
    assert (is_open s.state)
    >> ok (record s { state = disconnected; wants = false; removals = s.removals + 1 })

unfoldable pub connect_established : Life → Result Life
connect_established s =
    assert (is_connecting s.state)
    >> ok (record s { state = connected; registered = true; wants = true })

unfoldable pub disable_if_connected : Life → Life
disable_if_connected s =
    if is_connected s.state then record s { state = disconnected; wants = false } else s

-- With the assertions of `Channel::remove` and `EPollPoller::removeChannel`.
unfoldable pub connect_destroyed : Life → Result Life
unfolding disable_if_connected
connect_destroyed s =
    let d = disable_if_connected s in
    assert (not d.wants) >> (assert d.registered >> ok (record d { registered = false }))

unfoldable pub force_close_in_loop : Life → Result Life
unfolding handle_close
force_close_in_loop s = let closed = handle_close s in if is_open s.state then closed else ok s

unfoldable pub perform : Task → Life → Result Life
unfolding use_it connect_established connect_destroyed force_close_in_loop
perform establishes s = use_it s >> connect_established s
perform destroys s = use_it s >> connect_destroyed s
perform closes s = use_it s >> force_close_in_loop s
perform tells s = use_it s >> ok s
perform borrows s = use_it s >> ok s

pub data Event : Type 0 where
  takes : Event  -- doPendingFunctors takes the queue
  runs : Event  -- and runs the next functor
  rounds_off : Event  -- its vector goes
  begins : Event  -- handleEvent of the channel
  hangs_up : Event  -- which sees the end of the stream
  ends : Event
  removes : Event  -- the server's loop runs removeConnectionInLoop
  rounds_off_base : Event  -- its vector goes
  copies : Event  -- the user copies a pointer
  drops : Event  -- and gives one up
  closes_here : Event  -- forceClose in the loop's own thread
  asks_to_close : Event  -- forceClose from another thread tests the state
  sets_closing : Event  -- and sets it
  queues_close : Event  -- and queues its functor
  shuts_here : Event  -- shutdown in the loop's own thread
  asks_to_shut : Event  -- shutdown from another thread assigns kConnected in its condition
  sets_shut : Event  -- and then sets the state
  asks_to_send : Event  -- send from another thread
  posts : Event  -- shutdown or send queues its functor
  is_told : Event  -- a call of the user's callback is queued

unfoldable pub run_next : List Task → Life → Result Life
unfolding perform
run_next [] s = ok s
run_next (t ∷ ts) s = perform t (record s { batch = ts; ran = t ∷ s.ran })

unfoldable pub force_close : Life → Life
unfolding post
force_close s = if is_open s.state then post closes (record s { state = disconnecting }) else s

-- `removeConnectionInLoop`.
unfoldable pub remove_connection_in_loop : Life → Result Life
unfolding post
remove_connection_in_loop s =
    assert s.in_map
    >> ok (
        post destroys
          (record s { in_map = false; removals = s.removals - 1; removed = s.removed + 1 }))

unfoldable pub happen : Event → Life → Result Life
unfolding run_next settle handle_close remove_connection_in_loop force_close post
happen takes s = ok (record s { queue = []; batch = s.queue })
happen runs s = run_next s.batch s
happen rounds_off s = settle (record s { ran = [] })
happen begins s = ok (record s { guarded = s.alive })
happen hangs_up s = handle_close s
happen ends s = settle (record s { guarded = false })
happen removes s = remove_connection_in_loop s
happen rounds_off_base s = settle (record s { removed = 0 })
happen copies s = ok (record s { handles = s.handles + 1 })
happen drops s = settle (record s { handles = s.handles - 1 })
happen closes_here s = ok (force_close s)
happen asks_to_close s = ok (if is_open s.state then record s { closing = s.closing + 1 } else s)
happen sets_closing s =
    ok (record s { state = disconnecting; closing = s.closing - 1; queuing = s.queuing + 1 })
happen queues_close s = ok (post closes (record s { queuing = s.queuing - 1 }))
happen shuts_here s = ok (record s { state = disconnecting })
happen asks_to_shut s = ok (record s { state = connected; shutting = s.shutting + 1 })
happen sets_shut s =
    ok (record s { state = disconnecting; shutting = s.shutting - 1; calling = s.calling + 1 })
happen asks_to_send s = ok (record s { calling = s.calling + 1 })
happen posts s = ok (post borrows (record s { calling = s.calling - 1 }))
happen is_told s = ok (post tells s)

abbrev pub is_borrow : Task → ℕ
is_borrow borrows = 1
is_borrow _ = 0

-- The calls that are going on in other threads.
abbrev pub in_calls : Life → ℕ
in_calls s = s.closing + s.queuing + s.shutting + s.calling

-- These, and the `this` pointers in the loop's queue.
abbrev pub borrowed : Life → ℕ
borrowed s = in_calls s + tally is_borrow s.queue + tally is_borrow s.batch

abbrev pub IsIdle : Life → Type 0
IsIdle s = (s.batch ≡ []) × (s.ran ≡ [])

-- When an event is possible. The user calls the connection through a pointer, and keeps its last pointer during a
-- call and while a functor has, or will have, only `this`. Each assignment of the state by forceClose in another
-- thread, or by shutdown, comes while the connection is open: nothing in the code sees to that.
abbrev pub CanHappen : Event → Life → Type 0
CanHappen takes s = IsIdle s × (s.guarded ≡ false)
CanHappen runs s = s.guarded ≡ false
CanHappen rounds_off s = s.batch ≡ []
CanHappen begins s = IsIdle s × (s.guarded ≡ false) × (s.registered ≡ true) × (s.wants ≡ true)
CanHappen hangs_up s = (s.guarded ≡ true) × (is_open s.state ≡ true)
CanHappen ends s = s.guarded ≡ true
CanHappen removes s = 0 < s.removals
CanHappen rounds_off_base s = Unit {0}
CanHappen copies s = s.alive ≡ true
CanHappen drops s = (0 < s.handles) × ((1 < s.handles) ⊎ (borrowed s ≡ 0))
CanHappen closes_here s = 0 < s.handles
CanHappen asks_to_close s = 0 < s.handles
CanHappen sets_closing s = (0 < s.closing) × (is_open s.state ≡ true)
CanHappen queues_close s = 0 < s.queuing
CanHappen shuts_here s = (0 < s.handles) × (is_open s.state ≡ true)
CanHappen asks_to_shut s = (0 < s.handles) × (is_open s.state ≡ true)
CanHappen sets_shut s = (0 < s.shutting) × (is_open s.state ≡ true)
CanHappen asks_to_send s = (0 < s.handles) × (is_connected s.state ≡ true)
CanHappen posts s = 0 < s.calling
CanHappen is_told s = (s.alive ≡ true) × (is_open s.state ≡ true)

unfoldable pub play : List Event → Life → Result Life
unfolding happen
play [] s = ok s
play (x ∷ xs) s = happen x s >>= play xs

-- The loop of `doPendingFunctors`.
unfoldable pub run_batch : List Task → Life → Result Life
unfolding perform
run_batch [] s = ok s
run_batch (t ∷ ts) s = perform t (record s { batch = ts; ran = t ∷ s.ran }) >>= run_batch ts

-- `doPendingFunctors`, with nothing in between.
unfoldable pub do_pending_functors : Life → Result Life
unfolding run_batch settle
do_pending_functors s = do
  t ← run_batch s.queue (record s { queue = []; batch = s.queue })
  settle (record t { ran = [] })
