-- ===== src/Lib.antt =====
-- Dracula, a server that counts expiring entries: a model of its protocol, its store, its server, its
-- client and its two commands.
--
-- The parts, and how they interact. A client makes a packet of 1500 bytes (protocol/protocol.go) and
-- sends it by UDP or TCP. The server (server/server.go) reads a datagram, or a message off a TCP
-- connection (server/rawmessage/rawmessage.go), and hands it to `worker`, which parses and
-- authenticates it, calls a method of the store (store/store.go), and sends an answer, and for a put
-- also a replication packet to its peers. The store keeps a hash map from namespaces to trees; a tree
-- (store/tree/tree.go) keeps for each key the times at which its entries expire. The REST server
-- (server/restserver.go) calls the same store. The client (client/client.go) keeps a callback for each
-- request in a cache (client/waitingmessage/waitingmessage.go), from which a response or a timeout
-- takes it, and sends to a server of a pool (client/serverpool/serverpool.go) that is found healthy, or
-- over a TCP connection, where the request itself waits for the answer. The commands (cmd/cli/main.go,
-- cmd/server/main.go) make a client or a server of their flags.
--
-- Files.
--   Prelude: lists, tests and integers, and `Outcome`, the values of code that may panic.
--   Protocol: protocol/protocol.go. Words has the little-endian words, Pad `PadRight`, Text
--     `TrimSpace`, Command the command bytes, Packet the packets, with `new_packet_from_parts`,
--     `parse_packet`, `to_bytes`, `validate` and the rest under the names of the Go functions.
--   RawMessage: server/rawmessage/rawmessage.go, over the lines of a reader; Chunks has the lines of the
--     chunks that a connection delivers, and what a call leaves to the next.
--   Maps: the maps of github.com/emirpasic/gods, as records of operations and laws; Maps/Assoc is an
--     implementation.
--   Tree, Store: store/tree/tree.go and store/store.go, each method under its Go name, from a state
--     to the next state and a result.
--   Server: the worker of server/server.go, from a server and a message to the next server and the
--     list of what is sent. Server/Connections has the loops `readUDPFrames`, `ReadTCPFrames`,
--     `handleTCPConnection` and that of `worker`, Server/Peers `NewServer` and
--     `NewServerWithPeers`, Server/Lifecycle `Listen`, `Close` and the like, Server/Rest
--     server/restserver.go.
--   Client: Cache is client/waitingmessage/waitingmessage.go, Pool client/serverpool/serverpool.go. Of
--     client/client.go, State has the client's state and what a request meets, Config `NewClient`,
--     `Listen` and `Close`, Requests the methods (`count` is what `Count` does before it waits,
--     `count_result` what it returns when its callback is called), Sending `sendOrCallbackErr`, Udp
--     `_sendUDP`, Tcp `_sendTCP`, Responses `handleResponsesForever` and `handleTimeouts`, Runs a
--     client at work, as a list of events, and Health the rounds of health checks, each check with the
--     events until it is answered, and with them `Listen` and `loopHealthcheck`.
--   Commands: Cli is cmd/cli/main.go, Serve cmd/server/main.go.
-- Proofs stand in the child modules, named for what they prove; Tests modules run the code.
--
-- Bounds. Times are integers of 64 bits with wrap-around where they are added or subtracted, a
-- client's identifiers wrap at 2^32, counts are natural numbers, bytes are numbers. Loops run over
-- lists; only the loop over a TCP connection has fuel, one more than the chunks is enough, and none left
-- is a result of its own. A panic of Go, as for an index out of range or a nil pointer, is a value.
--
-- Parameters. The hash is any function with the documented behaviour of `hash.Hash.Sum`, the maps any
-- with the laws in Maps, regular expressions any that compile or not, and so are the parsers of
-- addresses and numbers; the clock is an argument, a reading for each time that the code reads it;
-- `WriteToUDP` fails at any addresses, and health checks at any servers; what a client's request meets
-- (the random numbers, the errors of writing and dialling, what a connection delivers, the item that
-- `sync.Pool` selects) is a record, `Environment`.
--
-- Not modelled: the interleaving of goroutines (methods run one after another), logging, metrics other
-- than the gauges that a collection sets, sockets, parsing of flags, and the size of a reader's buffer.
pub mod Prelude
pub mod Protocol
pub mod RawMessage
pub mod Maps
pub mod Tree
pub mod Store
pub mod Server
pub mod Client
pub mod Commands
