-- ===== src/Lib.antt =====
-- A model of anp-server, the backend of the ANP protocol in Go (package internal/server), and what
-- holds of it.
--
-- The server keeps one SQLite database. POST /rpc (internal/server/rpc.go, `handle_rpc` in Rpc.Entry)
-- reads a JSON-RPC request, authenticates its sender (auth.go, Auth), and under a mutex runs the
-- method's handler behind a cache of responses (rpc.go, Rpc). PUT /upload and GET /objects
-- (attachment.go, Attachment.Tickets) move the bytes of attachments. The parts are:
--
--   Store        the tables of internal/server/schema.go: `Db` is the whole database
--   Sql          the statements that write it, as actions; one with a UNIQUE key may fail
--   Exec         a handler: a function of `Db` that returns a result or an error, and the new `Db`;
--                there is no transaction, so what is written before an error stays written
--   Env          what a request sees of the world and of third-party code (below)
--   Json         decoded JSON values and Go's assertions on them (asMap of group.go)
--   Strings      the functions of Go's package strings that the code calls
--   Auth         auth.go, and headerGet of helpers.go
--   Did, Handle  did.go and handle.go
--   Inbox        msg.go
--   Direct       e2ee.go: direct.send and the prekeys; Proof: verifyOriginProof
--   Mentions     mentions.go
--   Group        group.go: Reads (roles and permissions), Membership, Updates, Send
--   GroupE2ee    group_e2ee.go: Packages, States, Messages
--   Attachment   attachment.go: Slots (create, commit, abort), Tickets (tickets and the data plane)
--   Rpc          rpc.go: dispatch and the cache; Rpc.Entry: handleRPC
--   Common       tests, lists and dictionaries that all modules use
--
-- Moves, Writes and Ends hold the methods of proof. `Moves p m` says that the action m moves every
-- database along the preorder p. `Writes p` is the interface between the statements and the
-- handlers: whoever shows that each shared statement follows p gets from Writes.Dispatch and
-- Writes.Entry that a request does. Evolution, Frame and Numbering fill it. `Ends R m s` follows one
-- run and keeps what its checks have established. The other modules below a part hold its proofs,
-- and Samples a small server at which the theorems are applied.
--
-- A request has an environment `Env` of its own: its clock, its random values and the functions of
-- the ANP SDK, of net and of the SQLite driver that it calls, so that nothing is assumed of two
-- requests together. One request reads one clock value, and the handlers format times to a second.
-- A JSON text column holds the value that was marshalled, and a map its fields in order; a key
-- that is set again keeps its place. The counters are natural numbers without the limit of int64.
-- A table with a primary key is a dictionary, in which an upsert is atomic.
--
-- Recursion is structural everywhere: on lists, on JSON fields and on strings, so no fuel is used.
--
-- Not modelled: the lifecycle of the process (New, Start, Close, JSONSnapshot of server.go), the
-- migrations of schema.go, failures of the disk and of crypto/rand, the text of JSON, and the
-- scripts. A run of the server (`serve`) holds requests to /rpc alone, one after the other:
-- authentication reads the database before handleRPC takes the mutex, and here no other request
-- comes between the two.
pub mod Common
pub mod Strings
pub mod Json
pub mod Store
pub mod Exec
pub mod Env
pub mod Sql
pub mod Moves
pub mod Proof
pub mod Mentions
pub mod Group
pub mod Handle
pub mod Did
pub mod Inbox
pub mod Direct
pub mod GroupE2ee
pub mod Attachment
pub mod Auth
pub mod Rpc
pub mod Ends
pub mod Writes
pub mod Frame
pub mod Numbering
pub mod Evolution
pub mod Samples
