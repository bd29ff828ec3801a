-- ===== src/Examples.antt =====
-- Tests of the definitions, and the theorems at inputs that exercise the code.
mod Trees
mod Buffers
mod Messages
mod Streams
mod Clients
mod Sockets
mod Lifetimes
mod Commands
mod Pairs
mod Store
mod Znodes
mod Servers
