-- ===== src/Connector.antt =====
-- SrcFile/Connector.h and SrcFile/Connector.c: one attempt after another to connect a socket, with a
-- delay between them. Each attempt comes with what the environment answers to it.
use simple_net_base.Prelude.{
  ℕ, ◌+◌, ◌*◌, Bool, true, false, not, ◌||◌, List, [], ◌∷◌, ◌++◌, Option, none, some, leb,
  if◌then◌else◌, is_none, Result, ok, fault, dangling, ◌>>=◌, ◌>>◌, assert,
}
use simple_net_base.Channel
use simple_net_base.Channel.{Channel, want_writing, want_nothing}
use simple_net_base.EventLoop
use simple_net_base.EventLoop.{EventLoop, queue_in_loop, run_in_loop, remove_from_loop}
use simple_net_base.Functor.{Functor}
use simple_net_base.Socket.{
  Errno, einprogress, eintr, eisconn, eagain, eaddrinuse, eaddrnotavail, econnrefused, enetunreach,
}
pub mod Ownership
pub mod Accounting
pub mod Outcomes
pub mod Handing
pub mod Backoff

pub data State : Type 0 where
  disconnected connecting connected : State

unfoldable pub is_disconnected : State → Bool
is_disconnected disconnected = true
is_disconnected _ = false

unfoldable pub is_connecting : State → Bool
is_connecting connecting = true
is_connecting _ = false

abbrev pub max_retry_delay_ms : ℕ
max_retry_delay_ms = 30 * 1000

abbrev pub init_retry_delay_ms : ℕ
init_retry_delay_ms = 500

pub record Connector : Type 0 where
  pub id : ℕ  -- the address of the object
  pub loop : EventLoop Functor
  pub connect : Bool
  pub state : State
  pub channel : Option Channel
  pub retry_delay_ms : ℕ
  pub opened : List ℕ  -- the descriptors that connect has made, the latest first
  pub closed : List ℕ  -- those that have been closed
  pub handed : List ℕ  -- those given to newConnectionCallback_
  pub delays : List ℕ  -- the milliseconds given to runAfter for startInLoop, the latest first

unfoldable pub init : ℕ → EventLoop Functor → Connector
init id l = record {
  id = id;
  loop = l;
  connect = false;
  state = disconnected;
  channel = none;
  retry_delay_ms = init_retry_delay_ms;
  opened = [];
  closed = [];
  handed = [];
  delays = [];
}

-- The descriptor of a new socket, the address of a new channel for it, and what `connect` answers.
pub record Attempt : Type 0 where
  pub fd : ℕ
  pub channel_id : ℕ
  pub error : Option Errno

-- The cases of the switch on `savedErrno`.
pub data Outcome : Type 0 where
  goes_on tries_again gives_up : Outcome

unfoldable pub outcome_of : Errno → Outcome
outcome_of einprogress = goes_on
outcome_of eintr = goes_on
outcome_of eisconn = goes_on
outcome_of eagain = tries_again
outcome_of eaddrinuse = tries_again
outcome_of eaddrnotavail = tries_again
outcome_of econnrefused = tries_again
outcome_of enetunreach = tries_again
outcome_of _ = gives_up

unfoldable pub outcome : Option Errno → Outcome
unfolding outcome_of
outcome none = goes_on
outcome (some e) = outcome_of e

abbrev pub min_delay : ℕ → ℕ → ℕ
min_delay a b = if leb a b then a else b

unfoldable pub retry : ℕ → Connector → Connector
retry fd c =
    let c' = record c { closed = fd ∷ c.closed; state = disconnected } in
    if c.connect
    then record c' {
      delays = c.retry_delay_ms ∷ c.delays;
      retry_delay_ms = min_delay (c.retry_delay_ms * 2) max_retry_delay_ms;
    }
    else c'

unfoldable pub connecting_with : ℕ → ℕ → Connector → Result Connector
connecting_with fd channel_id c = do
  assert (is_none c.channel)
  (ch, l) ← EventLoop.update_channel (want_writing (Channel.init channel_id fd)) c.loop
  ok (record c { state = connecting; channel = some ch; loop = l })

unfoldable pub connect_as : Outcome → Attempt → Connector → Result Connector
unfolding retry connecting_with
connect_as goes_on a c = connecting_with a.fd a.channel_id c
connect_as tries_again a c = ok (retry a.fd c)
connect_as gives_up a c = ok (record c { closed = a.fd ∷ c.closed })

-- `connect`.
unfoldable pub try_connect : Attempt → Connector → Result Connector
unfolding connect_as outcome
try_connect a c = connect_as (outcome a.error) a (record c { opened = a.fd ∷ c.opened })

unfoldable pub start_in_loop : Attempt → Connector → Result Connector
unfolding try_connect
start_in_loop a c = do
  assert (is_disconnected c.state)
  let started = try_connect a c
  if c.connect then started else ok c

unfoldable pub start : ℕ → Attempt → Connector → Result Connector
unfolding start_in_loop
start caller a c =
    let c' = record c { connect = true } in
    run_in_loop caller (Functor.start_in_loop c.id) (start_in_loop a c')
      (λ l. record c' { loop = l }) c.loop

unfoldable pub restart : Attempt → Connector → Result Connector
unfolding start_in_loop
restart a c =
    start_in_loop a
      (record c { state = disconnected; retry_delay_ms = init_retry_delay_ms; connect = true })

abbrev pub the_channel : Option Channel → Result Channel
the_channel none = fault dangling
the_channel (some ch) = ok ch

-- `channel_->disableAll()` and `channel_->remove()`.
unfoldable pub remove_and_reset_channel : Connector → Result (ℕ × Connector)
remove_and_reset_channel c = do
  ch ← the_channel c.channel
  (ch2, l2) ← remove_from_loop ch c.loop
  ok (
    ch2.fd,
    record c {
      channel = some ch2;
      loop = queue_in_loop l2.thread_id (Functor.reset_channel c.id) l2;
    },
  )

-- `resetChannel`, with the assertions of the channel's destructor.
unfoldable pub reset_from : Option Channel → Connector → Result Connector
reset_from none c = ok c
reset_from (some ch) c = do
  assert (not ch.event_handling)
  assert (not ch.added_to_loop)
  ok (record c { channel = none })

unfoldable pub reset_channel : Connector → Result Connector
unfolding reset_from
reset_channel c = reset_from c.channel c

unfoldable pub stop : ℕ → Connector → Connector
stop caller c = record c {
  connect = false;
  loop = queue_in_loop caller (Functor.stop_in_loop c.id) c.loop;
}

unfoldable pub stop_in_loop : Connector → Result Connector
unfolding remove_and_reset_channel retry
stop_in_loop c =
    let stopped =
      remove_and_reset_channel (record c { state = disconnected }) >>= λ (fd, d). ok (retry fd d) in
    if is_connecting c.state then stopped else ok c

-- What `getSocketError` and `isSelfConnect` answer.
unfoldable pub connected_with : Bool → Bool → ℕ × Connector → Result Connector
unfolding retry
connected_with error self (fd, c) =
    if error
    then ok (retry fd c)
    else if self
    then ok (retry fd c)
    else if c.connect
    then ok (record c { state = connected; handed = fd ∷ c.handed })
    else ok (record c { state = connected; closed = fd ∷ c.closed })

unfoldable pub handle_write : Bool → Bool → Connector → Result Connector
unfolding remove_and_reset_channel connected_with
handle_write error self c =
    let done = remove_and_reset_channel c >>= connected_with error self in
    let ignored = assert (is_disconnected c.state) >> ok c in
    if is_connecting c.state then done else ignored

unfoldable pub handle_error : Connector → Result Connector
unfolding remove_and_reset_channel retry
handle_error c =
    let failed = remove_and_reset_channel c >>= λ (fd, d). ok (retry fd d) in
    if is_connecting c.state then failed else ok c
