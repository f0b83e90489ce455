-- ===== src/Functor.antt =====
-- The functors that the repository's code binds for `runInLoop` and `queueInLoop`, each with the
-- address of the object that it is bound to.
use simple_net_base.Prelude.{ℕ, List}

pub data Functor : Type 0 where
  -- SrcFile/TcpConnection.c
  send_in_loop : ℕ → List ℕ → Functor
  shutdown_in_loop : ℕ → Functor
  force_close_in_loop : ℕ → Functor
  start_read_in_loop : ℕ → Functor
  stop_read_in_loop : ℕ → Functor
  write_complete : ℕ → Functor
  high_water_mark : ℕ → ℕ → Functor
  -- SrcFile/TcpServer.c and SrcFile/TcpClient.c
  connect_established : ℕ → Functor
  connect_destroyed : ℕ → Functor
  remove_connection_in_loop : ℕ → Functor
  listen : ℕ → Functor
  set_close_callback : ℕ → Functor
  -- SrcFile/Connector.c
  start_in_loop : ℕ → Functor
  stop_in_loop : ℕ → Functor
  reset_channel : ℕ → Functor
  -- SrcFile/TimerQueue.c
  add_timer_in_loop : ℕ → Functor
  cancel_in_loop : ℕ → ℕ → Functor
