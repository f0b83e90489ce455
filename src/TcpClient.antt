-- ===== src/TcpClient.antt =====
-- SrcFile/TcpClient.h and SrcFile/TcpClient.c: a connector and the connection that it has made, on one
-- loop. Both keep a copy of the loop in their records: the client lends them its own before each call of
-- theirs and takes it back afterwards. An id is the address of a connection.
use simple_net_base.Prelude.{
  ℕ, ◌+◌, Bool, true, false, ◌&&◌, List, [], ◌∷◌, ◌++◌, Option, none, some, ◌==◌, if◌then◌else◌,
  length, Result, ok, ◌>>=◌, ◌>>◌, assert,
}
use simple_net_base.Prelude.Decimal.{decimal, snprintf}
use simple_net_base.Buffer.{BufferOps}
use simple_net_base.EventLoop.{EventLoop, queue_in_loop, run_in_loop}
use simple_net_base.Functor.{Functor}
use simple_net_base.Connector
use simple_net_base.Connector.{Connector, Attempt}
use simple_net_base.TcpConnection
use simple_net_base.TcpConnection.{Conn, Call, close_call}
use simple_net_base.TcpConnection.Requests.{User, shutdown, force_close}
use simple_net_base.TcpConnection.Handlers
pub mod Names
pub mod Single
pub mod Attempts
pub mod Removal
pub mod Steps
pub mod Outcomes
pub mod Again

-- The name of a connection, for the client's name, the peer's address as text and the number.
unfoldable pub conn_name : List ℕ → List ℕ → ℕ → List ℕ
unfolding snprintf
conn_name name peer id = name ++ snprintf 32 (b':' ∷ (peer ++ b'#' ∷ decimal id))

module _ (B : BufferOps) where
  pub record TcpClient : Type 0 where
    pub loop : EventLoop Functor
    pub connector : Connector
    pub has_write_complete : Bool  -- writeCompleteCallback_ has been set
    pub retry : Bool
    pub connect : Bool
    pub next_conn_id : ℕ
    pub connection : Option (Conn B)
    pub released : List (Conn B)  -- those that connection_ has let go, the latest first

  unfoldable pub init : ℕ → EventLoop Functor → TcpClient
  init connector_id l = record {
    loop = l;
    connector = Connector.init connector_id l;
    has_write_complete = false;
    retry = false;
    connect = true;
    next_conn_id = 1;
    connection = none;
    released = [];
  }

  unfoldable pub enable_retry : TcpClient → TcpClient
  enable_retry c = record c { retry = true }

  -- `setWriteCompleteCallback`, with a callback.
  unfoldable pub set_write_complete_callback : TcpClient → TcpClient
  set_write_complete_callback c = record c { has_write_complete = true }

  abbrev pub lent : TcpClient → Connector
  lent c = record (c.connector) { loop = c.loop }

  abbrev pub lent_to : TcpClient → Conn B → Conn B
  lent_to c conn = record conn { loop = c.loop }

  abbrev pub take_connector : TcpClient → Connector → TcpClient
  take_connector c k = record c { connector = k; loop = k.loop }

  abbrev pub take_connection : TcpClient → Conn B → TcpClient
  take_connection c conn = record c { connection = some conn; loop = conn.loop }

  -- `connect`, `disconnect` and `stop`, from the thread `caller`.
  unfoldable pub connect_to : ℕ → Attempt → TcpClient → Result TcpClient
  connect_to caller a c =
      let c' = record c { connect = true } in
      Connector.start caller a (lent c') >>= λ k. ok (take_connector c' k)

  unfoldable pub shut_held : ℕ → Option (Conn B) → TcpClient → Result TcpClient
  shut_held caller none c = ok c
  shut_held caller (some conn) c =
      shutdown B caller (lent_to c conn) >>= λ d. ok (take_connection c d)

  unfoldable pub disconnect : ℕ → TcpClient → Result TcpClient
  unfolding shut_held
  disconnect caller c = shut_held caller c.connection (record c { connect = false })

  unfoldable pub stop : ℕ → TcpClient → TcpClient
  stop caller c =
      let c' = record c { connect = false } in take_connector c' (Connector.stop caller (lent c'))

  -- The assignments to `connection_`: the one that it held is let go.
  abbrev pub let_go : Option (Conn B) → List (Conn B) → List (Conn B)
  let_go none cs = cs
  let_go (some conn) cs = conn ∷ cs

  unfoldable pub hold : Option (Conn B) → TcpClient → TcpClient
  hold o c = record c { connection = o; released = let_go c.connection c.released }

  -- A new connection with the address `id`, with its callbacks set.
  unfoldable pub made : ℕ → ℕ → TcpClient → Conn B
  made id fd c = record (TcpConnection.init B id fd c.loop) {
    has_write_complete = c.has_write_complete;
  }

  abbrev pub holds : ℕ → Option (Conn B) → Bool
  holds id none = false
  holds id (some conn) = conn.id == id

  -- `removeConnection`, with what a new attempt finds.
  unfoldable pub remove_connection : Attempt → ℕ → TcpClient → Result TcpClient
  unfolding hold
  remove_connection a id c = do
    assert (holds id c.connection)
    let c1 = hold none c
    let c2 = record c1 {
      loop = queue_in_loop c1.loop.thread_id (Functor.connect_destroyed id) c1.loop;
    }
    let again = Connector.restart a (lent c2) >>= λ k. ok (take_connector c2 k)
    if c2.retry && c2.connect then again else ok c2

  -- The user of a connection of the client, whose close callback is the client's own.
  abbrev pub but_close : User B → User B
  but_close user close_call c = []
  but_close user k c = user k c

  module _ (user : User B) where
    unfoldable pub new_connection : ℕ → ℕ → TcpClient → Result TcpClient
    unfolding hold made
    new_connection id fd c = do
      let c1 = record c { next_conn_id = c.next_conn_id + 1 }
      let conn = made id fd c1
      d ← TcpConnection.Handlers.connect_established B (but_close user) conn
      ok (take_connection (hold (some conn) c1) d)

    -- The call of newConnectionCallback_ at the end of the connector's `handleWrite`, if it comes to that:
    -- the connector has noted one more descriptor that it hands on.
    unfoldable pub hand_over : ℕ → List ℕ → List ℕ → TcpClient → Result TcpClient
    unfolding new_connection
    hand_over id before [] c = ok c
    hand_over id before (fd ∷ earlier) c =
        let established = new_connection id fd c in
        if length earlier == length before then established else ok c

    -- A write event of the connector's channel, with the answers of getSocketError and isSelfConnect and
    -- the address of a new connection.
    unfoldable pub handle_connector_write : Bool → Bool → ℕ → TcpClient → Result TcpClient
    unfolding hand_over
    handle_connector_write error self id c = do
      k ← Connector.handle_write error self (lent c)
      hand_over id c.connector.handed k.handed (take_connector c k)

    -- `handleClose` of the connection that is held, which ends with the call of the close callback.
    unfoldable pub handle_connection_close : Attempt → Conn B → TcpClient → Result TcpClient
    unfolding remove_connection
    handle_connection_close a conn c = do
      d ← TcpConnection.Handlers.handle_close B (but_close user) (lent_to c conn)
      remove_connection a d.id (take_connection c d)

  -- `~TcpClient`, and whether nothing else holds the connection. What is left is the connection with its
  -- new close callback, or the connector on its way to stop.
  unfoldable pub destroy_held : ℕ → Bool → Option (Conn B) → TcpClient → Result TcpClient
  destroy_held caller unique none c = ok (take_connector c (Connector.stop caller (lent c)))
  destroy_held caller unique (some conn) c = do
    l ← run_in_loop caller (Functor.set_close_callback conn.id) (ok c.loop) (λ l. l) c.loop
    let c' = record c { loop = l }
    let closed = force_close B caller (lent_to c' conn) >>= λ d. ok (take_connection c' d)
    if unique then closed else ok c'

  unfoldable pub destroy : ℕ → Bool → TcpClient → Result TcpClient
  unfolding destroy_held
  destroy caller unique c = destroy_held caller unique c.connection c
