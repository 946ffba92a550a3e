-- ===== src/Lib.antt =====
-- block-preempt is a sharded blockchain emulator whose shards move accounts between each other. This
-- library models how the nodes of a shard agree on a block, what a block holds, and what it does to the
-- accounts.
--
-- The parts. A shard keeps a transaction pool and four pools of migration transactions (core/). To make
-- a block, GenerateBlock (chain/blockchain.go) takes migration transactions under a quota and then
-- transactions from the front of the queue, and applies them to the state (getUpdatedTreeOfState);
-- AddBlock applies them again, compares the state roots, and updates the tables of accounts and shards
-- (account/account_state.go). A migration is a TXmig1 in the source shard, a TXmig2 in the destination,
-- and an announcement and a TXns. trie/ is a radix tree over nibbles from byte strings to values.
--
-- The nodes of a shard agree on a request by three phases (pbft/pbft.go): the leader N0 broadcasts a
-- PrePrepare, the others Prepares, and all of them Commits; a node that has the commits of a request that
-- it misses asks the leader for the blocks. Propose as it stands calls propose1, which commits without the
-- phases. A payment to another shard is sent there as a relay. The accounts are assigned to
-- shards by label propagation on the graph of their payments (algorithm/).
--
-- Files and code:
--   Params             params/config.go: ChainConfig and its declared values
--   Params/Tables      params/config.go: the tables of shards and nodes, RenewShardTable
--   Trie/Nibbles       trie/trie_nibbles.go
--   Trie/Node          trie/trie_node.go, trie_leaf.go, trie_extension.go, trie_empty.go: the nodes
--   Trie/Branch        trie/trie_branch.go
--   Trie/Walk          trie/trie.go: the loops of Get and Put
--   Trie/State         trie/trie.go: Trie, Get, Put, NewTrieWithData
--   Trie/Delete        trie/trie_node.go: Node.Delete; trie/trie.go: Trie.Delete
--   Trie/Valid, Map    well-formed tries, and the trie as a map
--   Account/Hex        encoding/hex as the code uses it, on strings as bytes
--   Account/Table      a Go map by its entries
--   Account/Shards     account/account_state.go and utils/utils.go: Addr2Shard, Min
--   Account/Credit     account/account_state.go: the credit lines of the bank
--   Core/Pools         core/txmig1pool.go, txmig2pool.go, txannpool.go, txnspool.go
--   Core/Transaction   core/transaction.go: Transaction2, Mtx2totx1
--   Core/Migration     core/txmig1.go, txmig2.go, txann.go, txns.go, proofdb.go: the data
--   Core/TxPool        core/txpool.go: AddTx, AddTxs, FetchTxs2Pack; Lock: LockTX; Bank: the bank pools
--   Chain/Generate     chain/blockchain.go: GenerateBlock
--   Chain/Update       chain/blockchain.go: getUpdatedTreeOfState, the settlement and the bank
--   Chain/Execute      chain/blockchain.go: getUpdatedTreeOfState, transactions and composition
--   Chain/AddBlock     chain/blockchain.go: AddBlock
--   Algorithm/Graph    algorithm/graph.go
--   Algorithm/Clpa     algorithm/partition_CLPA.go: the state and ComputeEdges2Shard1
--   Algorithm/Clpa/Run  partition_CLPA.go: ComputeEdges2Shard, getShard_score, CLPA_Partition
--   Pbft/Wire          pbft/cmd.go: jointMessage, splitMessage; pbft/pbft.go: handleRequest
--   Pbft/Node          pbft/pbft.go: Pbft, broadcast, the maps of votes; pbft/cmd.go: the messages
--   Pbft/Handlers      pbft/pbft.go: the handlers; pbft/pbftsingle.go: propose1, commit1
--   Pbft/Steps         a node as a state machine over the events that reach it, and a whole round
--   Pbft/Follower      the consensus on AddBlock of Chain/AddBlock; core/block.go: Block
--   Pbft/Relay         pbft/pbft.go: TryRelay, TryRelay2, handleRelay
--   Pbft/FromClient    pbft/hanleTxFromClient.go: handleTxFromClient; pbft/pbft.go: TrySendTX
--   Migrate/Anns       pbft/handleanns.go: handleAnns around its loop over the queue
--   Migrate/Collect    pbft/handleanns.go: the loop of handleAnns over the queue
--   Migrate/Gather     pbft/handleanns.go: handleAnns as a whole
--   Migrate/Aggregate  pbft/pbft.go: TrySendChangesAndPendings, up to its message
--   Migrate/Messages   pbft/pbft.go, handleanns.go: handleNewMap, TryTXmig1, handleMig2, TryAnnounce,
--                      handleAnnounce, mpAndSend
--   Migrate/Receive    pbft/pbft.go, PBFTforMigrate.go: handleChangesAndPendings, handleBankAggTX
--   Migrate/SendOut    pbft/PBFTforMigrate.go: SendOut
--   Migrate/Sure       pbft/PBFTforMigrate.go: SendSure, handleSure
--
-- How the state corresponds. A struct is a record, a node a data type with one constructor for each
-- flag. A queue of pointers is a list of references into a store, since one transaction can stand in
-- several queues and is written through each. A Go map is a function with the zero value for a missing
-- key, and an association list (Account/Table) where the code ranges over it or counts it. `*big.Int` and
-- `int` are integers, with a natural number where the code keeps it from being negative; no sum of the modelled code comes near 64 bits except balances, which have no bound in the
-- source either. The sequence numbers of messages are taken as natural numbers. A panic is `none`, and in the
-- handlers of pbft/ an outcome beside the wait for a mutex. Every loop is structural recursion, so there
-- is no fuel. A handler is one step: one that would wait has done nothing yet.
--
-- Parameters of the model: the clock, the gob copy of a transaction, the hash of the state trie, and the
-- state trie of go-ethereum with the encoding of an account (Chain/StateDb), of which three laws are
-- assumed: decoding inverts encoding, Get after Update finds the value, Update leaves other keys alone;
-- encoding/json of a request and crypto/sha256 (Codec), and Merkle proofs. The consensus works on the
-- interface `Ledger` of Pbft/Node: decoding, AddBlock, GenerateBlock, the leader's work after a block, and
-- what an epoch change and incoming states do to the tables.
--
-- Two loops of the source write to a slice while they read it (handleTxFromClient, and the release of
-- waiting transactions in handleAnns); the model writes to the same list and keeps the end that Go has
-- evaluated, and the parameter `grows` says where `append` makes a new array.
--
-- Not modelled: goroutines (each method holds its lock, and is one step), other sharing of slice storage
-- that `append` can leave, hashes and encodings, storage, logs, the network and the client process, of
-- the migration protocol handleBalancesAndPendings, the proposals of mpropose, handleMigrateWanted and
-- handleEpochChange, and of algorithm/ LBF and METIS. The float64 operations of CLPA are parameters.
mod Prelude
pub mod Params
pub mod Trie
pub mod Account
pub mod Core
pub mod Chain
pub mod Algorithm
pub mod Pbft
pub mod Migrate
