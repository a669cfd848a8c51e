-- ===== src/Lib.antt =====
-- Leopard: nodes that hold a key-value data set each, and protocols that bring them to one.
--
-- A node keeps its data in a storage (state/src/storage/mod.rs), and a protocol compares its data
-- with a neighbour's and fetches what differs. This library models:
--   Prelude               shared names; lists, bytes and std's BTreeMap over the native numbers
--   State/Storage         state/src/storage/mod.rs: the in-memory map, its file and its listeners
--   State/Dash            what the storage uses of the third-party `DashMap`
--   State/Checker         state/src/checker/local.rs: the check that all nodes hold the same pairs
--   Merkle/Tree           reconciliation/src/merkle_tree/tree.rs: the hash tree over the sorted data
--   Merkle/Session        reconciliation/src/merkle_tree/receiver.rs: the walk of the initiator over
--                         the responder's tree, and the answers of the responder
--   Merkle/Sync           the same file: `apply_fetched` and `handle_sync_root`, which join the
--                         session, the storage and the tree
--   Riblt/Symbols         reconciliation/src/riblt_core/symbols.rs: symbols and their bytes
--   Riblt/Decoder         what the engine uses of the third-party riblt crate
--   Riblt/Session         riblt_core/session.rs: the storage as a set, a batch through the decoder
--   Riblt/Sender          riblt_core/stream.rs: the sessions, the handlers and the sender's loop
--   Riblt/Receiver        the same file: the receiver's loop with its reorder buffer
--   Riblt/EndToEnd        both ends of one stream
--   Riblt/Protocol        reconciliation/src/riblt: the messages, the node at the engine's two ends, and
--                         the periodic task
--   Bloom                 reconciliation/src/algorithms/rbf/bloom.rs and rateless_bloom.rs
--   Ribbon                reconciliation/src/algorithms/ribbon: Params, Hashing (a key's equation),
--                         Filter (a lookup) and Builder (the elimination, its back substitution, the
--                         retries and the growth), then the proofs: the rows that are filled, the
--                         equations that they solve, and the keys that are found
--   RfRiblt               reconciliation/src/rf_riblt: Wire (a filter as bytes), Protocol (the state),
--                         Handlers (each received message, and the sender's task), Fetch and Agree (the
--                         end of a round between the two nodes of Exchange)
--   RbfRiblt              reconciliation/src/rbf_riblt, its first phase: the slices of a Bloom filter and
--                         the keys that they put aside
--   Replication           replication/src/protocol/mod.rs and the storage listener of
--                         reconciliation/src/merkle_tree/protocol.rs: a save, its broadcast and the tree
--   Message               message/src/lib.rs, connection/src/request/handler/default.rs and the frames
--                         of state/src/node/mod.rs: the header of a packet
--   Membership            membership/src/lib.rs, taints/src/lib.rs, connection/src/node/port.rs and
--                         `init_neighbors` of state/src/node/mod.rs
--   Routes                connection/src/route/default.rs: the route table and the dispatch
--   Tests                 the theorems at small nodes, and whole exchanges that are run
--
-- A function of the code is the definition of its name; a method takes the state and returns the
-- new one. A string is the list of its bytes, as natural numbers. The hash function (blake3) is a
-- parameter, and theorems that need it to keep apart the strings that two trees hash say so for
-- those strings alone. Network and peer are a parameter too: the answer that a request with a given
-- id gets, or none where it times out. Recursion over halves of a list has the length of the list as
-- fuel, which is enough as each half is shorter. The walk over the tree has fuel for its levels, one
-- more than the height of the responder's tree is enough, and running out is a result of its own.
-- A concurrent map is taken between its operations: an interleaving is a sequence of calls.
-- A sender and the handlers interleave as a list of actions. A handler is one critical section of the
-- code. A turn of the sender is taken as one action too, where the code has two sections, one that
-- reads the session and one that takes symbols off its encoder: in between only an acknowledgement
-- can be stored, which the batch does not use yet, or the session can go, and then nothing is sent.
-- The network is the order in which the sender's batches come to the receiver. The reorder buffer is
-- drained on fuel, for which the number of its entries is enough.
-- A key is placed into a ribbon filter on fuel, for which one more than the number of rows is enough, as
-- each slot that is met moves the start of the equation on.
-- In a round of rf_riblt, each handler runs alone and messages come in the order in which they are
-- sent.
--
-- Not modelled: sockets, timers, metrics, configuration, the command line, the vendored riblt crate, the
-- handlers of rbf_riblt, the hybrid protocol (a stub), the message bodies (which rkyv encodes), and
-- the membership protocols.
pub mod Prelude
pub mod State
pub mod Merkle
pub mod Riblt
pub mod Bloom
pub mod Message
pub mod Membership
pub mod Ribbon
pub mod RfRiblt
pub mod RbfRiblt
pub mod Replication
pub mod Routes
pub mod Tests
