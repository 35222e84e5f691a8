-- ===== src/Lib.antt =====
-- tangentfeed is a local-first database: every replica keeps a log of signed operations, each of
-- which writes one cell (table, row, column) at a time of a hybrid logical clock, and
-- replicas exchange their logs until they show the same cells, the newest write of a cell winning.
-- This library models its TypeScript packages: packages/core, and around it the schema, the adapters for
-- IndexedDB and SQLite, the cipher, the signaling server and the public interface.
--
-- Parts and files (sources under packages/core/src unless another package is named):
--   Hlc         hlc.ts          the clock: encodeHlc, decodeHlc, compareHlc, now, receive
--     Hlc/Hex, Hlc/Codec, Hlc/Order, Hlc/Ticks: hexadecimal digits, the codec, the order, the ticks
--   Values      op.ts           `Json`, with the other values that an unchecked message may hold
--   Signing     signing.ts      canonicalJson, deviceIdFromPublicKey, signPayload, verifyPayload
--   Op          op.ts           validateOp, aboveFrontier, advanceFrontier, signedPayload, verifyOp
--     Op/Valid, Op/Frontiers, Op/Names: validation, frontiers, names without a separator
--   Storage     storage.ts      MemoryAdapter: applyBatch, compact, opsSince and the getters
--     Storage/Keys, Storage/Cells, Storage/Batches, Storage/Listing: cell keys, one cell of the
--     nested maps, a batch of cells, what is listed from the log
--     Storage/Strict, Storage/Writes: lists in strict order, the writes of any adapter as data
--   Compaction  compaction.ts   compactionHorizon, blockingPeers, planCompaction, winningCells
--     Compaction/Horizon, Compaction/Safety: the horizon, what is planned for removal
--   Ulid        ulid.ts         row ids; Ulid/Shape, Ulid/Order: their shape and order
--   Engine      engine.ts       commit, learnKey, open, recordPeerFrontier, compact
--     Engine/Local: makeLocalOp, insert, update, delete; Engine/Local/Stamps, Engine/Local/Made:
--     the operations made
--     Engine/Remote: applyRemoteOps, observeRemoteClock
--     Engine/Commit: commit and the specification; Engine/Remote/Admission,
--     Engine/Remote/Fresh, Engine/Remote/Filter, Engine/Remote/Apply: what is admitted, what is new, what is
--     applied
--     Engine/Reads: get and list, with isEncryptedValue of cipher.ts; Engine/Reads/Rows: what they show
--     Engine/Convergence: engines that commit the same operations; Engine/Remote/Directory: the keys
--     Engine/Remote/Accepted: batches that are accepted; Engine/Sync: dump and syncOnce
--     Engine/Ahead: the clock and the log; Engine/Ahead/Stamped, Engine/Ahead/Writes,
--     Engine/Ahead/Batches: local writes and remote operations; Engine/Ahead/Reach: every state
--   Replicator  replicator.ts   the messages, handle, start, stop, chunks, hex and unhex
--     Replicator/Chunks, Replicator/Handling, Replicator/Safety, Replicator/Keys, Replicator/Answers
--   Replica     PROTOCOL.md §5  the specification: a log, a winner per cell, a frontier, and merge
--     Replica/Coherence, Replica/Convergence: the invariant, and independence of the order
--   Schema      packages/schema/src/builders.ts: fields and their builders
--     Schema/Check  packages/schema/src/validate.ts: checkValue; Schema/Check/Typing: what a field describes
--     Schema/Validate: validateInsert, validateUpdate, parseRow; Schema/Validate/Writes, Schema/Validate/Rows
--   Idb         packages/adapter-idb/src/index.ts: IdbAdapter over object stores
--     Idb/Documented: what it relies on of IndexedDB; Idb/Writes, Idb/Listing, Idb/Rows: the adapter beside
--     the one in memory
--   Sqlite      packages/adapter-sqlite/src/index.ts: SqliteAdapter over lists of rows
--     Sqlite/Queries, Sqlite/Listing: opsSince, which asks per device, beside the one in memory
--   Crypto      packages/crypto/src/index.ts: SpaceCipher; Crypto/RoundTrip
--   Signaling   packages/signaling-server/src/index.ts: the rooms and the two events of a socket
--     Signaling/Rooms, Signaling/Soundness, Signaling/Relay: lookups, reached states, who is sent what
--   Space       packages/tangentfeed/src/index.ts: resolveStorage, resolveCipher, writes through a schema
--     Space/Typed: what such a write commits
--   Errors      the errors that the source throws, as values
--   Prelude     numbers, lists, texts and maps; Samples and Tests hold data, runs and examples
--
-- How the code is translated:
--   A text is the list of its UTF-16 code units, and texts are compared by these, as the source's
--   `<` does. A `Map`, and an object used as one, is an association list in order of insertion; a
--   `Set` is the list of its members. Milliseconds and counters are natural numbers, and the
--   48-bit and 16-bit bounds are the ones that the source checks.
--   A method that throws returns an error beside the state that it leaves, since what it wrote
--   before stays written. The engine's mutex makes a locked section one step, so an operation is a
--   function of the engine's whole state: device, storage, clock, keys, the subscribers, each with
--   the events that it has been called with and what a call of it throws, and how many readings of the
--   physical clock were taken.
--   Loops are structural recursion over the list that the source iterates; `chunks` recurses on the
--   length of its list, which bounds the number of chunks.
--
-- Parameters: the record `Platform` of Signing stands for JSON.stringify, TextEncoder, btoa, atob
-- and the hash and signature functions of @noble; the readings of the physical clock are a function
-- of their number; the cipher is the record `Cipher` of cipher.ts. No law of these is assumed. What every
--   object inherits is the record `Host` of Schema/Check. The object stores of IndexedDB are the records
--   `ObjectStore` of Idb, with the laws of Idb/Documented; the functions of @noble that the cipher uses are the
--   record `Noble` of Crypto, with the laws of Crypto/RoundTrip. Samples/Sorted is a store that has the laws.
--   What the adapter for SQLite stores as JSON is read and written by the record `Json` of Sqlite, and its
--   statements are functions of lists of rows. The sockets that are open and the parser of JSON are parameters
--   of Signaling.
--
-- Not modelled: handlers of the replicator that interleave at an `await`, where the model runs each as one
-- step; a transaction of IndexedDB or SQLite that fails; two calls of setPeerFrontier that overlap; a
-- subscriber that changes the subscribers while it is called; the drivers of SQLite; the transports, which are
-- input and output; the part of `openSpace` that makes transports and starts replicators on them; the
-- hooks for React; the implementations in Dart. Numbers of JSON are kept as the 64 bits of
-- their representation, and only the test for a finite one and the equality of `includes` read them. The order
-- of keys that are array indices in an object used as a map is the order of insertion here.
mod Prelude
pub mod Errors
pub mod Values
pub mod Hlc
pub mod Signing
pub mod Op
pub mod Storage
pub mod Compaction
pub mod Idb
pub mod Replica
pub mod Schema
pub mod Signaling
pub mod Ulid
pub mod Engine
pub mod Crypto
pub mod Replicator
pub mod Sqlite
pub mod Space
pub mod Samples
mod Tests
