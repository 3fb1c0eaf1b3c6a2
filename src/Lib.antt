-- ===== src/Lib.antt =====
-- Two chat servers in Rust, modelled and verified: the single server of pa1/server and the cluster
-- of three replicated servers of pa2.
--
-- Parts of the cluster (pa2/src):
-- - discord_stateops.rs is the state of one server: users, channels, their members and messages.
--   Discord/Types, Discord/Messages and Discord/Operations are its records, its message ids with
--   the ordered set of messages, and its operations, under the source's names. A panic is `none`.
--   An async handler is an `Async` task: it returns at once, or waits for its `user_exists`
--   argument, which answers and hands over the state that the other tasks have made meanwhile. The
--   proofs are in Numbering (ids are read back), Order and Insertion (the ordered set), Invariant,
--   Users, Members, Joining, Leaving, Sending and Sends (each operation), Reading, Replication
--   (primary and backup) and Interleaving (all operations of a server's tasks, one inside the wait
--   of another).
-- - server_middleware.rs connects the servers. Middleware/Election is the choice of the leader,
--   Middleware/Heartbeat is `send_pings_task`, and Middleware/Peer is the numbering of requests,
--   the dispatch of responses to callbacks and the end of a peer. Heartbeats and Peer are machines
--   over events; a trace lists the events, the latest first, in any order that the network may
--   produce.
-- - distributed_stateops.rs spreads users and channels over the servers. Distributed/Owners is who
--   owns what and who answers a request, Distributed/Startup is `init_state`. Distributed/Wire is
--   the JSON form of results; Distributed/Run is the monad of one call at one server;
--   Distributed/Forward is what the operations share (`forward_request`, `replicate_op`, the
--   retry), Distributed/Operations the operations themselves, Distributed/Requests
--   `receive_callback` and Distributed/Merge `get_users` and `get_channels`. `attempt_at` is one
--   attempt at an operation with both reads of the primary's liveness; the operations use
--   `attempt`, in which the two reads see the same. The proofs are in Retry, Returning, Repeats and
--   Failures (rounds of a call), Calls and Remote (a call that is passed on), Changes and Replicas
--   (replication), and Merge/Asking and Merge/Names.
--   A `World` holds the server's state, the requests that it has sent, and `replies`, the ends of
--   the waits to come: in which state the other tasks have left the server by then, and the answer,
--   or `none` for a peer that went down. A result is `returned`, `panicked`, or `waiting` when the
--   replies are used up. `Platform` stands for serde_json, serde's derived conversions, http's
--   StatusCode and the standard library's DefaultHasher, with the laws that the code relies on.
--   Distributed/Dispatch is what `peer_task` of server_middleware.rs does with one JSON value.
-- - http_handlers.rs is Distributed/Endpoints and its Channels: each endpoint from what axum has
--   extracted to status and JSON. Endpoints/Pages has the proofs on pages of messages.
-- - config.rs is the list of servers: Config.
--
-- The single server (pa1/server/src): stateops.rs is Chat/Types and Chat/Operations. Membership is
-- stored twice, by channel and by user; Chat/Index states the agreement of the two, Chat/Users,
-- Chat/Changes, Chat/Departure and Chat/History treat the operations, and Chat/Runs all sequences
-- of them. tcp_handlers.rs is Chat/Commands: the commands of one connection, each line a call that
-- takes the connection to the next, with the proofs in Chat/Connections and Chat/Lines.
-- Chat/Sockets is `process_socket`, the loop over what the socket delivers, with the proofs in
-- Chat/Reads; UTF-8 is a parameter, `Utf8`, and what is outside of the connection another,
-- `Environment`: which writes fail, and what the other clients do to the shared state between two
-- commands. http_handlers.rs is Chat/Endpoints, with the proofs in Chat/Serving.
--
-- Base holds what the parts share: tests and the conditional, lists measured by native numbers,
-- hash maps and hash sets as lists that hold each key once, texts as lists of code points, and
-- decimal numbers as `format!` prints and `parse::<usize>` reads them. Tests holds small runs and
-- the theorems at concrete inputs.
--
-- Bounds and fuel: usize has 64 bits and additions wrap (`usize_mod`); the `i32` that numbers pings
-- has 32 bits (`key_mod`). Theorems for which a wrap-around matters say how many events or messages
-- they allow. `decimal` recurses on fuel `n + 1`, of which it uses at most one round per digit.
-- `retry` has one round more than there are replies, and each round but the last takes one.
-- `serve_lines` has one round more than there are characters.
--
-- Not modelled: sockets, JSON texts, the routing of HTTP requests, and the command line (I/O, or
-- third-party code); the order in which hash sets are iterated; the capacity of queues; a lock that
-- is poisoned by a panic; threads that change what a server holds of the others between the two
-- reads of one attempt, beyond `attempt_at`; the failure of the last `shutdown` of a connection.
-- The configuration is taken to name the servers A, B and C, without which `get_server_state`
-- panics.
pub mod Base
pub mod Discord
pub mod Config
pub mod Middleware
pub mod Distributed
pub mod Chat
pub mod Tests
