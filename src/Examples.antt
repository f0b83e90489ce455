-- ===== src/Examples.antt =====
-- Concrete channels, pollers, loops and connections, and the theorems of the library at them.
mod Channels
mod Loops
mod Connections
mod Timers
mod Pools
mod Connectors
mod Servers
mod Acceptors
mod Addresses
mod Locking
mod Handshakes
mod Clients
mod Reactors
mod Closings
mod Births
mod Delays
mod Lifetimes
mod Kernels
mod Fronts
