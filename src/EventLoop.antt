-- ===== src/EventLoop.antt =====
-- SrcFile/EventLoop.h and SrcFile/EventLoop.c: the queue of functors, the wakeup descriptor, the
-- registration of channels, and the rounds of the loop. `F` is the type of the functors.
use simple_net_base.Prelude.{
  ℕ, zero, suc, ◌+◌, ◌≡◌, refl, Bool, true, false, not, ◌&&◌, ◌||◌, List, [], ◌∷◌, ◌++◌, Option,
  none, some, ◌==◌, if◌then◌else◌, length, Result, ok, fault, ◌>>=◌, ◌>>◌, assert,
}
use simple_net_base.Channel.{Channel, is_none_event, want_nothing}
use simple_net_base.Poller
use simple_net_base.Poller.{Poller, Store, WaitResult}
pub mod Wakeup
pub mod Rounds
pub mod Calls
pub mod Quitting
pub mod Registration

pub record EventLoop (F : Type 0) : Type 0 where
  pub thread_id : ℕ
  pub looping : Bool
  pub quit : Bool
  pub event_handling : Bool
  pub calling_pending_functors : Bool
  pub iteration : ℕ
  pub poller : Poller
  pub active_channels : List ℕ  -- the channels' addresses
  pub current_active_channel : Option ℕ
  pub pending_functors : List F
  pub wakeups : ℕ  -- writes to the wakeup descriptor since it was last read

abbrev pub elem : ℕ → List ℕ → Bool
elem a [] = false
elem a (x ∷ xs) = x == a || elem a xs

abbrev pub is_current : ℕ → Option ℕ → Bool
is_current id none = false
is_current id (some a) = a == id

module _ {F : Type 0} where
  -- The members of a fresh loop of the thread `tid`; the constructor's body and the loop's own channels are
  -- in Reactor.
  unfoldable pub init : ℕ → Poller → EventLoop F
  init tid p = record {
    thread_id = tid;
    looping = false;
    quit = false;
    event_handling = false;
    calling_pending_functors = false;
    iteration = 0;
    poller = p;
    active_channels = [];
    current_active_channel = none;
    pending_functors = [];
    wakeups = 0;
  }

  unfoldable pub is_in_loop_thread : ℕ → EventLoop F → Bool
  is_in_loop_thread caller l = l.thread_id == caller

  unfoldable pub wakeup : EventLoop F → EventLoop F
  wakeup l = record l { wakeups = l.wakeups + 1 }

  -- `handleRead`: it reads the wakeup descriptor, whose counter drops to 0.
  unfoldable pub handle_read : EventLoop F → EventLoop F
  handle_read l = record l { wakeups = 0 }

  unfoldable pub queue_in_loop : ℕ → F → EventLoop F → EventLoop F
  unfolding wakeup is_in_loop_thread
  queue_in_loop caller f l =
      let l' = record l { pending_functors = l.pending_functors ++ f ∷ [] } in
      if not (is_in_loop_thread caller l') || l'.calling_pending_functors then wakeup l' else l'

  -- `runInLoop(f)`, for a caller that holds the loop inside a larger state: `now` is what the call of
  -- `f` does, and `put` gives the state with the loop replaced.
  unfoldable pub run_in_loop {ℓ} :
      {S : Type ℓ} → ℕ → F → Result S → (EventLoop F → S) → EventLoop F → Result S
  unfolding is_in_loop_thread queue_in_loop
  run_in_loop caller f now put l =
      if is_in_loop_thread caller l then now else ok (put (queue_in_loop caller f l))

  unfoldable pub quit_loop : ℕ → EventLoop F → EventLoop F
  unfolding wakeup is_in_loop_thread
  quit_loop caller l =
      let l' = record l { quit = true } in
      if not (is_in_loop_thread caller l') then wakeup l' else l'

  unfoldable pub queue_size : EventLoop F → ℕ
  queue_size l = length l.pending_functors

  -- `Channel::update` and `EventLoop::updateChannel`.
  unfoldable pub update_channel : Channel → EventLoop F → Result (Channel × EventLoop F)
  update_channel c l = do
    (c', p) ← Poller.update_channel (record c { added_to_loop = true }) l.poller
    ok (c', record l { poller = p })

  -- `Channel::remove` and `EventLoop::removeChannel`.
  unfoldable pub remove_channel : Channel → EventLoop F → Result (Channel × EventLoop F)
  remove_channel c l = do
    assert (is_none_event c)
    assert (
        not l.event_handling
        || (is_current c.id l.current_active_channel || not (elem c.id l.active_channels)))
    (c', p) ← Poller.remove_channel (record c { added_to_loop = false }) l.poller
    ok (c', record l { poller = p })

  -- `disableAll` and `remove` of a channel, as its owners call them one after the other.
  unfoldable pub remove_from_loop : Channel → EventLoop F → Result (Channel × EventLoop F)
  unfolding want_nothing
  remove_from_loop c l = update_channel (want_nothing c) l >>= λ (d, m). remove_channel d m

-- What the loop runs in: a state that holds the loop and the channels, what handling an event does
-- to it, and what calling a functor does.
pub record Host (F W : Type 0) : Type 0 where
  pub get : W → EventLoop F
  pub put : EventLoop F → W → W
  pub store : W → Store
  pub put_store : Store → W → W
  pub handle_event : ℕ → W → Result W
  pub call : F → W → Result W

module _ {F W : Type 0} (h : Host F W) where
  open h use {get, put, store, put_store, handle_event, call}

  unfoldable pub call_all : List F → W → Result W
  call_all [] w = ok w
  call_all (f ∷ fs) w = call f w >>= call_all fs

  unfoldable pub do_pending_functors : W → Result W
  do_pending_functors w = do
    let functors = (get w).pending_functors
    v ←
        call_all functors
          (put (record (get w) { calling_pending_functors = true; pending_functors = [] }) w)
    ok (put (record (get v) { calling_pending_functors = false }) v)

  unfoldable pub handle_all : List ℕ → W → Result W
  handle_all [] w = ok w
  handle_all (c ∷ cs) w =
      handle_event c (put (record (get w) { current_active_channel = some c }) w) >>= handle_all cs

  -- The body of the loop, with what `epoll_wait` returns.
  unfoldable pub round : WaitResult → W → Result W
  round wait w = do
    (p, s, active) ← Poller.poll wait (get w).poller (store w)
    v ← handle_all active (
        put_store s (
          put
            (record (get w) {
              active_channels = active;
              poller = p;
              iteration = (get w).iteration + 1;
              event_handling = true;
            })
            w))
    do_pending_functors
        (put (record (get v) { current_active_channel = none; event_handling = false }) v)

  -- `while (!quit_)`, over what `epoll_wait` returns in the rounds to come. The flag says whether the
  -- loop has ended; if not, it waits for more.
  unfoldable pub loop_from : List WaitResult → W → Result (W × Bool)
  loop_from [] w = ok (w, (get w).quit)
  loop_from (e ∷ es) w =
      let rest = round e w >>= loop_from es in if (get w).quit then ok (w, true) else rest

  unfoldable pub loop : List WaitResult → W → Result (W × Bool)
  loop es w = do
    assert (not (get w).looping)
    (v, ended) ← loop_from es (put (record (get w) { looping = true; quit = false }) w)
    ok (if ended then put (record (get v) { looping = false }) v else v, ended)
