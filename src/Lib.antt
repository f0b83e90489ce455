-- ===== src/Lib.antt =====
-- SimpleNetBase: a reactor library for TCP (in the style of muduo), modelled from SrcFile/.
--
-- The parts. An event loop (SrcFile/EventLoop.c) belongs to one thread. It waits in a poller
-- (SrcFile/EPollPoller.c) for events on descriptors, lets each active channel (SrcFile/Channel.c) call
-- its owner's handlers, and then calls the functors that any thread has queued. A connection
-- (SrcFile/TcpConnection.c) owns a channel and two buffers; its handlers run in its loop, and what
-- other threads ask of it reaches the loop as functors. A loop has a timer queue
-- (SrcFile/TimerQueue.c), whose descriptor is one of its channels. A pool
-- (SrcFile/EventLoopThreadPool.c) hands out loops in turn. A connector (SrcFile/Connector.c) makes
-- connections, which a client (SrcFile/TcpClient.c) takes over one at a time; a server
-- (SrcFile/TcpServer.c) spreads what its acceptor (SrcFile/Acceptor.c) accepts over the pool. Loops
-- of a pool run in threads of their own (SrcFile/EventLoopThread.c, SrcFile/Thread.c), and what
-- threads share is behind mutexes (SrcFile/Mutex.h, SrcFile/Condition.h).
--
-- The files.
--   Prelude: numbers, tests, lists, association lists, and `Result`: a failed `assert` is the value
--     `fault assert_failed`, a use of a pointer that is not alive `fault dangling`.
--   Channel: the event masks and `handleEvent` (Channel.handle_event); Masks and Dispatch have its
--     theorems, Printing has the text of a channel's events.
--   Poller: `updateChannel`, `removeChannel`, `poll`; the calls of epoll_ctl are kept as a list, and
--     Kernel says what they leave in the kernel for an epoll that does what its manual promises.
--     Registration is about the map from descriptors to channels, Wait about the returned events.
--   EventLoop: the queue, the wakeup descriptor, registration, and the rounds of the loop over a host
--     (the rest of the program) that handles events and calls functors. Wakeup is the interleaving with
--     other threads as a step relation, Rounds is about `doPendingFunctors`, Registration about the
--     registration and the removal of a channel, Calls about `runInLoop`, Quitting about a `quit`
--     that comes too early.
--   Reactor: an event loop with its own channels and its timer queue, from the constructor to the
--     destructor (Ends), and the timer calls from its thread and from others (Timers).
--   TcpConnection: the state, the channel's use, and sending; Requests has what the user may ask,
--     Handlers the channel's callbacks, establishing and destroying, Transfer sending a buffer. Stream
--     and Drain follow the bytes, Interest, Asked, Handled and Steps are about the invariant over all
--     events, Outcomes about each event in every state, Lifecycle about the end, Echo about sending a buffer, Started about kConnecting, Delayed about
--     closing after a delay.
--   TimerQueue: the heap of timers, the two sets that hold their addresses, the expiry round and the
--     timer descriptor. Invariant, Changes and Idle tie the sets to the heap, Operations, Effects and Expiry are
--     about adding, cancelling and taking what is due, Rounds about the round with its callbacks,
--     Ordering about two timers in either order, Ending about the destructor.
--   Timestamp: times and their text; Printing is about the text.
--   EventLoopThreadPool: the loops that connections are handed to; RoundRobin is about their order,
--     Names about the names of the threads.
--   Connector: attempts to connect, one at a time, with a delay between them; Ownership and Accounting
--     follow their descriptors, Outcomes is about each event in every state, Backoff about the delays.
--   TcpServer: the map of connections and what the server posts to the loops; Handover counts the posts,
--     Ending is about the destructor, Names about names. Accepting is the
--     acceptor and the server together. Lifetime follows the shared pointers to one
--     connection over its loop, the server's and other threads: Counting and Course have the invariant,
--     Tasks is about the functors, Owned about all events, Freed about the end.
--   WeakCallback: a callback on an object that may be gone (SrcFile/WeakCallback.h); Held is about its pointer.
--   Acceptor: listening, accepting and the reserve descriptor; Descriptors follows the descriptors.
--   TcpClient: a connector and its connection, each lent the client's loop; Single, Attempts, Removal and
--     Steps are about the invariant, Outcomes about each event in every state, Again about what follows
--     the end of a connection, Names about names.
--   Sockets, InetAddress: addresses as the bytes of their union (SrcFile/SocketOps.c,
--     SrcFile/InetAddress.c); Text and RoundTrip are about their text, Endpoints about self-connections,
--     Calls about the calls that make descriptors, whose builds Builds is about.
--   Locks, Atomic: a mutex and its holder over any number of threads (Holding), the deadline of a timed
--     wait (Timeout), and the atomic integers.
--   Thread: creation, joining and detaching; Ends counts them. Birth is `start` against the thread that it
--     makes, Current what a thread keeps of itself.
--   EventLoopThread: the start of a loop in a thread of its own, two threads interleaved; Handshake has
--     the invariant, Progress shows that the start ends, Blocked when it cannot. Closing
--     is the destructor against the loop: Outcome has how it ends, Lost when it does not.
--   StdSet: std::set as an ordered list; Laws has its lemmas, Canonical those on equal sets.
--   Buffer, Socket, Functor: the interface of the buffers, the answers of the system calls, the functors
--     that the code binds.
--   Examples: concrete states and runs.
--
-- Bounds. Numbers are natural numbers; sizes wrap at 2^64 where the code subtracts or adds them, and the
-- theorems say where no wrap happens. The loop runs over a list of what epoll_wait returns, one entry a
-- round, so no fuel is needed. Times are integers without a bound: the overflow of a signed
-- 64-bit sum of times, which C++ leaves undefined, is not modelled.
--
-- Not modelled. Buffer.h, EPollPoller.h, CurrentThread.h, SocketOps.h, Socket.c, Poller.c and
-- CountDownLatch.c are not in the repository. Printing, logging, the failure of epoll_ctl (which the code
-- ignores), and the user's contexts leave no state that the code reads again.
-- Of SocketOps, the wrappers that return what a system call answers are left out: the answers are
-- arguments of the operations that use them. Types and Callbacks keep no state of the program's own.
-- Shared pointers are boost's: they count, and the last one deletes.
mod Prelude
pub mod Channel
pub mod Poller
pub mod StdSet
pub mod TimerQueue
pub mod EventLoopThreadPool
pub mod Connector
pub mod TcpServer
pub mod Acceptor
pub mod TcpClient
pub mod Locks
pub mod Atomic
pub mod Thread
pub mod EventLoopThread
pub mod Timestamp
pub mod Reactor
pub mod Sockets
pub mod InetAddress
pub mod EventLoop
pub mod Buffer
pub mod Socket
pub mod Functor
pub mod TcpConnection
pub mod WeakCallback
mod Examples
