-- ===== src/Lib.antt =====
-- MyRaftKV, a key-value store built on the Raft consensus algorithm.
--
-- The core is the package raft: a log over a stable storage (raft/log.go, raft/log_unstable.go,
-- raft/storage.go), the trackers of the followers (raft/tracker) and the votes of majorities
-- (raft/quorum). A leader appends entries to its log, sends them to its followers within the window
-- that raft/tracker/inflights.go keeps, and commits what raft/quorum says a majority has
-- acknowledged.
--
-- Prelude holds what the modules share: tests on numbers, uint64 arithmetic with its wrap-around,
-- lists, association lists for Go maps, and Result, a call that returns a value, returns an error
-- or panics (a nil dereference, an index out of range, Logger.Panicf).
-- Quorum models raft/quorum. A map is the list of its keys in the order in which a loop visits them.
-- Tracker models raft/tracker: Tracker.Inflights the ring of inflights, Tracker.Progress the state of
-- a follower, Tracker itself the votes of a ProgressTracker.
-- Log models the log: Log.Entries the messages, Log.Storage the interface Storage and MemoryStorage,
-- Log.Unstable the unstable entries, Log.RaftLog the raftLog, which takes any Storage.
-- Raft models raft/raft.go and raft/read_only.go: Raft.Message the messages, Raft.ReadOnly the queue of
-- read requests, Raft.State the struct raft and its small operations, Raft.Become the changes of role,
-- Raft.Replicate what a leader sends, Raft.Reads the answers to reads, Raft.Elect the elections,
-- Raft.Receive the handlers of a follower, Raft.Leader and Raft.Others the three step functions,
-- Raft.Step Step and the clock. A handler is a function from a Raft to a Result; the function that
-- `step` points to is a StepFunc. Raft.Quiet and Raft.Later carry the proofs about terms and votes,
-- Raft.Voters and Raft.Standing those about campaigns.
-- Node models raft/rawnode.go, raft/bootstrap.go, raft/status.go and raft/node.go: Node.RawNode the raw
-- node and Ready, Node.Status what a node tells of itself, Node.Loop the turns of `run`, Node.Calls the
-- methods that talk to the loop. A turn looks at the node and then takes one case of the select, which is
-- an argument; Node.Loop.Turns and Node.Runs make runs of the turns and of the raw node's methods.
-- Wal models server/storage/wal/encoder.go with pkg/ioutil/pagewriter.go and pkg/crc/crc.go:
-- Wal.PageWriter the writer of whole pages, Wal.Frame the length fields (with decodeFrameSize of
-- server/storage/wal/decoder.go), Wal.Crc the checksum, Wal.Encoder the encoder. The writer under the page
-- writer, crc32.Update and proto.Marshal are parameters. PageWriter.Write calls itself; its fuel is 2.
-- Service models the package node: Service.Items the log, Service.State the node and its counters (Service.Checks: when its indices rise),
-- Service.Server the answers to RPCs, Service.Client the requests and what the answers to them do,
-- Service.Election an election, Service.Machine runs of the answers. A call's answer, the time and the
-- answer of Redis are arguments.
-- Machine models state/, a machine that switches its own state over a channel, and Readers the wrappers
-- of readers in pkg/ioutil.
-- rand.Intn is the field `draws`. The loop over maybeSendAppend takes two rounds more than the size of
-- the window of inflights as fuel, and that is enough where the window is not overfull.
--
-- A uint64 is a number, with the wrap-around of each sum and difference written out. A Go int that
-- counts is a number; it does not overflow. The loop of findConflictByTerm takes two rounds more than
-- its index as fuel, which the theorem on its termination shows to be enough on a valid log.
--
-- Not modelled: newRaft and what calls it, which panics; the decoder of records, whose file does not
-- compile, and the file pipeline, which is unfinished; generated code; files, locks, logging, the
-- network and Redis, which only do input and output.
pub mod Prelude
pub mod Quorum
pub mod Tracker
pub mod Log
pub mod Raft
pub mod Wal
pub mod Node
pub mod Service
pub mod Machine
pub mod Readers
