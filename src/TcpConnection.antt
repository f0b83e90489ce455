-- ===== src/TcpConnection.antt =====
-- SrcFile/TcpConnection.h and SrcFile/TcpConnection.c: the state of a connection, its use of its
-- channel, and sending. The handlers and the rest of the interface are in the children.
use simple_net_base.Prelude.{
  ℕ, ◌+◌, ◌-◌, ◌*◌, ◌%◌, ◌^◌, Bool, true, false, not, ◌&&◌, ◌||◌, List, [], ◌∷◌, ◌++◌, Option, none,
  some, ◌==◌, ltb, leb, if◌then◌else◌, length, take, drop, Result, ok, ◌>>=◌, ◌>>◌, assert,
}
use simple_net_base.Buffer.{BufferOps}
use simple_net_base.Channel
use simple_net_base.Channel.{
  Channel, is_writing, is_reading, want_reading, unwant_reading, want_writing, unwant_writing,
  want_nothing,
}
use simple_net_base.EventLoop
use simple_net_base.EventLoop.{EventLoop, queue_in_loop, run_in_loop}
use simple_net_base.Functor
use simple_net_base.Functor.{Functor}
use simple_net_base.Socket.{Written, wrote, write_failed, Errno, eagain, epipe, econnreset}
pub mod Requests
pub mod Handlers
mod Events
pub mod Stream
pub mod Outcomes
pub mod Transfer
pub mod Echo
pub mod Drain
pub mod Interest
pub mod Asked
pub mod Handled
pub mod Steps
pub mod Lifecycle
pub mod Started
pub mod Delayed

pub data State : Type 0 where
  disconnected connecting connected disconnecting : State

unfoldable pub is_disconnected : State → Bool
is_disconnected disconnected = true
is_disconnected _ = false

unfoldable pub is_connecting : State → Bool
is_connecting connecting = true
is_connecting _ = false

unfoldable pub is_connected : State → Bool
is_connected connected = true
is_connected _ = false

unfoldable pub is_disconnecting : State → Bool
is_disconnecting disconnecting = true
is_disconnecting _ = false

-- `state_ == kConnected || state_ == kDisconnecting`.
unfoldable pub is_open : State → Bool
unfolding is_connected is_disconnecting
is_open s = is_connected s || is_disconnecting s

-- Calls of the user's callbacks.
pub data Call : Type 0 where
  connection_call message_call close_call : Call

abbrev pub size_mod : ℕ
size_mod = 2 ^ 64

-- `a - b` on size_t.
unfoldable pub sub_size : ℕ → ℕ → ℕ
sub_size a b = (a + size_mod - b) % size_mod

-- `errno != EWOULDBLOCK && (errno == EPIPE || errno == ECONNRESET)`.
unfoldable pub is_fault : Errno → Bool
is_fault epipe = true
is_fault econnreset = true
is_fault _ = false

module _ (B : BufferOps) where
  open B use {Buffer, contents, append}

  pub record Conn : Type 0 where
    pub id : ℕ  -- the address of the object
    pub state : State
    pub reading : Bool
    pub channel : Channel
    pub loop : EventLoop Functor
    pub high_water_mark : ℕ
    pub has_write_complete : Bool  -- writeCompleteCallback_ has been set
    pub has_high_water : Bool  -- highWaterMarkCallback_ has been set
    pub input_buffer : Buffer
    pub output_buffer : Buffer
    pub sent : List ℕ  -- the bytes that the socket has taken, in order
    pub write_shut : Bool  -- socket_->shutdownWrite() has been called
    pub calls : List Call  -- the user's callbacks that have been called, in order
    pub delayed_closes : List ℕ  -- the delays given to runAfter, as bit patterns

  unfoldable pub init : ℕ → ℕ → EventLoop Functor → Conn
  init id fd l = record {
    id = id;
    state = connecting;
    reading = true;
    channel = Channel.init id fd;
    loop = l;
    high_water_mark = 64 * 1024 * 1024;
    has_write_complete = false;
    has_high_water = false;
    input_buffer = B.empty;
    output_buffer = B.empty;
    sent = [];
    write_shut = false;
    calls = [];
    delayed_closes = [];
  }

  unfoldable pub readable_bytes : Conn → ℕ
  readable_bytes c = length (contents c.output_buffer)

  -- An assignment to the channel's `events_` followed by its `update()`.
  unfoldable pub with_events : (Channel → Channel) → Conn → Result Conn
  with_events change c = do
    (ch, l) ← EventLoop.update_channel (change c.channel) c.loop
    ok (record c { channel = ch; loop = l })

  unfoldable pub enable_reading : Conn → Result Conn
  unfolding with_events
  enable_reading = with_events want_reading

  unfoldable pub disable_reading : Conn → Result Conn
  unfolding with_events
  disable_reading = with_events unwant_reading

  unfoldable pub enable_writing : Conn → Result Conn
  unfolding with_events
  enable_writing = with_events want_writing

  unfoldable pub disable_writing : Conn → Result Conn
  unfolding with_events
  disable_writing = with_events unwant_writing

  unfoldable pub disable_all : Conn → Result Conn
  unfolding with_events
  disable_all = with_events want_nothing

  -- A functor that a handler queues: handlers run in the loop's thread.
  unfoldable pub queue : Functor → Conn → Conn
  queue f c = record c { loop = queue_in_loop c.loop.thread_id f c.loop }

  unfoldable pub queue_if : Bool → Functor → Conn → Conn
  unfolding queue
  queue_if b f c = if b then queue f c else c

  -- The direct write in `sendInLoop`: the connection, `nwrote`, `remaining` and `faultError`.
  unfoldable pub write_now : List ℕ → Written → Conn → Conn × ℕ × ℕ × Bool
  unfolding sub_size queue_if
  write_now bytes (wrote n) c =
      let remaining = sub_size (length bytes) n in
      let c' = record c { sent = c.sent ++ take n bytes } in
      (
        queue_if (remaining == 0 && c.has_write_complete) (Functor.write_complete c.id) c',
        n,
        remaining,
        false,
      )
  write_now bytes (write_failed e) c = (c, 0, length bytes, is_fault e)

  unfoldable pub try_write : List ℕ → Written → Conn → Conn × ℕ × ℕ × Bool
  unfolding readable_bytes write_now
  try_write bytes w c =
      if not (is_writing c.channel) && readable_bytes c == 0
      then write_now bytes w c
      else (c, 0, length bytes, false)

  unfoldable pub ensure_writing : Conn → Result Conn
  unfolding enable_writing
  ensure_writing c =
      let enabled = enable_writing c in if not (is_writing c.channel) then enabled else ok c

  -- The last part of `sendInLoop`: what was not written goes to the output buffer, with a call of the
  -- high water mark's callback queued before it.
  unfoldable pub warn_high_water : ℕ → Conn → Conn
  unfolding readable_bytes queue_if
  warn_high_water remaining c =
      let total = (readable_bytes c + remaining) % size_mod in
      queue_if (leb c.high_water_mark total && c.has_high_water)
        (Functor.high_water_mark c.id total) c

  unfoldable pub keep_rest : List ℕ → ℕ → ℕ → Conn → Result Conn
  unfolding warn_high_water ensure_writing
  keep_rest bytes nwrote remaining c =
      let c' = warn_high_water remaining c in
      ensure_writing
        (record c' { output_buffer = append (take remaining (drop nwrote bytes)) c'.output_buffer })

  -- `sendInLoop` after the direct write, given the connection, `nwrote`, `remaining` and `faultError`.
  unfoldable pub send_rest : List ℕ → Conn × ℕ × ℕ × Bool → Result Conn
  unfolding keep_rest
  send_rest bytes (c, nwrote, remaining, fault_error) = do
    assert (leb remaining (length bytes))
    let kept = keep_rest bytes nwrote remaining c
    if not fault_error && ltb 0 remaining then kept else ok c

  -- `sendInLoop`, with what the socket answers if it is asked.
  unfoldable pub send_in_loop : List ℕ → Written → Conn → Result Conn
  unfolding try_write send_rest
  send_in_loop bytes w c =
      let done = send_rest bytes (try_write bytes w c) in
      if is_disconnected c.state then ok c else done

  unfoldable pub send : ℕ → List ℕ → Written → Conn → Result Conn
  send caller bytes w c =
      let run =
        run_in_loop caller (Functor.send_in_loop c.id bytes) (send_in_loop bytes w c)
          (λ l. record c { loop = l }) c.loop in
      if is_connected c.state then run else ok c
