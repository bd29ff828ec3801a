-- ===== src/Lib.antt =====
-- The remote key-value store of group 48: a binary search tree behind a server with a queue of
-- write operations, a backup server that the primary server copies its writes to, and clients.
--
-- The parts, from the bottom up, with the file that models each:
--   Data           source/data.c, blocks of bytes
--   Entry          source/entry.c, keys with values, and the comparison of keys
--   Tree           source/tree.c, the search tree with its counters
--   Message        source/message-private.c and sdmessage.proto, what client and server exchange
--   Serialization  source/serialization.c, buffers of messages and trees
--   Tasks          source/server/tasks-private.c, the queue of writes and their results
--   Inet           source/inet-private.c, addresses, and messages over sockets
--   NetworkServer  source/server/network_server.c, the sockets of the clients and the main loop
--   ClientStub     source/client/client_stub.c and source/client/network_client.c, the client's calls
--   TreeClient     source/client/tree_client.c, the commands that a user types
--   Skel           source/server/tree_skel.c, requests and the thread that performs the writes
--   TreeServer     source/server/tree_server.c, from start to end
--   Zk             source/zk-private.c and the listener of source/server/tree_server.c, the znodes
--   Replication    source/server/tree_skel.c twice, the primary and the backup server at work
-- The functions keep the names of the C functions, without a leading underscore. The modules below
-- a part hold its proofs, and some of its model: Inet.Socket, Zk.Members, TreeClient.Session.
-- Examples holds tests and the theorems at concrete inputs.
--
-- How the parts interact: Skel.invoke answers reads from the tree at once and hands writes to
-- Tasks; Skel.process_next takes the oldest task, changes the tree, sends the message to the backup
-- server and stores the result, which a later request reads by the identifier of the task.
-- ClientStub sends a write to the primary server and a read to the backup server; Inet.Socket
-- carries each message as its length and its bytes, which Serialization makes. NetworkServer hands
-- the messages of its clients to Skel.invoke. TreeClient turns lines into calls of ClientStub.
-- Zk gives each function as the tree of its calls of Zookeeper; Zk.Members runs the functions of
-- several servers call by call, in any order, where a session ends only with its server, and
-- Zk.Rules names what Zookeeper is relied on for, and what is assumed beyond its
-- documentation. Replication runs two servers: a step is a request
-- to one of them, an iteration of a worker, or a message between them. What is under way to the
-- backup server is what Skel.process_next says that network_send_message sent; it arrives once and
-- in order. A worker that calls exit ends the run, and no fresh server takes the place of one of the
-- two: the code does not copy the tree to a new backup server.
--
-- Conventions. A pointer that may be NULL is an Option, and a C string is the list of its bytes. A
-- function that changes what a pointer refers to returns the new value. An int is an integer.
-- What is read from a text (atoi), summed up for a buffer or converted between int and size_t wraps
-- around as on a 64-bit machine; counters and identifiers do not overflow, which the code does not
-- guard against either. A read beyond a buffer of a tree, or an index in it beyond an int, ends in a
-- value of its own, since C gives it no meaning. Each function of Tasks and each
-- request and iteration of Skel is one step, since the code runs it under a mutex. Loops walk a
-- list or a tree, or the system calls that they make, so they need no fuel, but for the digits of a
-- printed number, where the number plus 1 is enough, and the loop of buffer_to_tree, which moves on
-- by 4 bytes or more, where the size of the buffer plus 1 is.
--
-- Not modelled: a malloc that fails (only the request for a negative size does), the freeing of
-- memory but where a client frees twice, logging, the generated code of sdmessage.pb-c.c, the name
-- of the host, and signals. What protobuf-c packs is a parameter (Serialization.Codec), and so is
-- Zookeeper (Zk.Zookeeper); the results of the system calls on sockets, and what other parts find in
-- Zookeeper, are arguments (Inet.Socket, Skel.Network, NetworkServer, TreeServer,
-- ClientStub.Transport, TreeClient.Directory).
pub mod Prelude
pub mod Data
pub mod Entry
pub mod Tree
pub mod Message
pub mod Serialization
pub mod Tasks
pub mod Inet
pub mod Skel
pub mod NetworkServer
pub mod Zk
pub mod TreeServer
pub mod Replication
pub mod ClientStub
pub mod TreeClient
mod Examples
