-- ===== src/Lib.antt =====
-- A model of how chainmaker agrees on blocks, executes and fetches them, and theorems about it.
--
-- The repository holds a blockchain node (chainmaker-go-master/), two consensus components
-- (consensus-tbft-master/, consensus-pbft-master/) and the messages they exchange (pb-go-master/).
-- This library models the TBFT consensus, the snapshot on which the node executes a block, the
-- synchronisation that fetches blocks of other nodes, and the caches of blocks. In the
-- consensus, validators take turns to propose a block for a height, and vote on it in rounds of
-- prevotes and precommits; a block is committed with the precommits of more than two thirds of the
-- validators.
--
-- - Prelude.antt and the modules below it: Boolean tests, lists and maps over the native numbers, byte
--   strings and machine integers, and results that may be an error or a panic. A Go map is a list of
--   pairs whose first entry of a key counts; the code's ranges over maps have results that do not
--   depend on the order, except for the order of a list that is sorted afterwards, and for which of
--   several proposals a search in Core.antt finds; there the theorems hold for every order.
-- - Tbft/Validators.antt: consensus-tbft-master/validator.go.
-- - Tbft/Vote.antt, Tbft/VoteSet.antt: the votes and `VoteSet` of consensus-tbft-master/vote.go.
-- - Tbft/Rounds.antt: `heightRoundVoteSet` of consensus-tbft-master/vote.go.
-- - Tbft/State.antt, Tbft/Caches.antt: consensus-tbft-master/state.go and tbft_msg.go.
-- - Tbft/Certificate.antt: the checks of certificates of consensus-tbft-master/utils.go.
-- - Tbft/Timer.antt: consensus-tbft-master/timesched.go.
-- - Tbft/Engine.antt and the modules below it: consensus-tbft-master/consensus_tbft_impl.go. The state is
--   the record `Engine`, which holds the state of the height, the validator set, the caches and the
--   channels; what is handed to other components (timers, message bus, net, write-ahead log) is
--   appended to the list `sent`; what is read of them is the record `Env`. Engine/Steps, Engine/NewRound
--   and Engine/Commit are the steps of a round, Engine/Votes is `addVote` with what a majority does, and
--   Engine/Messages has the handlers of vote messages and timeouts, Engine/RoundCertificate that of round
--   certificates. The other modules below Engine hold proofs: Engine/Locks, Engine/Certificates,
--   Engine/Position and the modules below Engine/RoundCertificate. A vote goes through Engine/Messages
--   to `add_vote` of Tbft/Rounds, and a majority there leads on to the next step.
-- - Snapshot.antt, Snapshot/Applying.antt: chainmaker-go-master/module/snapshot/snapshot_impl.go, the
--   state that the transactions of a block share while they are executed side by side. Snapshot/Serial
--   has the runs, in which a transaction reads and checks at any time between its beginning and its
--   application, and the proofs that they are as good as one transaction after another; Snapshot/Dag
--   is the graph of the conflicts of a block. What the store, the context of a transaction and the
--   bitmaps do is an argument.
-- - Sync.antt: chainmaker-go-master/module/sync, where a node fetches the blocks that it lacks.
--   Sync/Scheduler and its modules are scheduler.go, which asks peers for heights: the requests in
--   Sync/Scheduler/Requests, what comes back in Sync/Scheduler/Responses. Sync/Processor is
--   processor.go, in which the blocks wait for their turn, with the commit of blockchain_sync_server.go
--   in Sync.antt; Sync/Processor/Chain has its runs. The scheduler hands `ReceivedBlockInfos` to the
--   processor, which answers with a `ProcessedBlockResp`. The clock, the random generator, the coding of
--   messages, and the answers of the verifier and the committer are arguments. Two loops over heights
--   count the rounds that their second condition leaves, so they end when the code's loops do.
-- - Core.antt: chainmaker-go-master/module/core/cache, which keeps the last committed block and the
--   blocks that are proposed at each height. Core/Keyed has the runs of its operations. The fingerprint
--   of a block is an argument.
-- - Tbft/Tests.antt, Core/Tests.antt, Snapshot/Tests.antt, Sync/Tests.antt: tests on concrete values.
--
-- A method that changes its receiver takes it as the last argument and returns the new value. int32
-- and uint64 wrap around as in Go. A function that can panic returns a `Result`,
-- in Sync/Scheduler/Requests an `Option`. Mutexes and logging
-- are not modelled: each method is one step. No definition runs on fuel: all loops are structural, and
-- the steps of the engine do not call back: what would is put into a channel.
--
-- Not modelled: of the engine the handlers of proposals, of verified blocks and of new heights, the
-- replay of the write-ahead log and the chain configuration; the broadcaster of
-- states; of the synchronisation the server's tickers, its answers to other nodes and the queues of its
-- routines; the second consensus; the rest of the node, which drives a virtual machine, a store and a
-- network of other libraries.
pub mod Core
pub mod Prelude
pub mod Tbft
pub mod Snapshot
pub mod Sync
