-- ===== src/Lib.antt =====
-- The replication and lease logic of the slash2 metadata server, and the sliver cache of the I/O server.
--
-- slash2 is a distributed file system. A file is cut into bmaps of 128 MiB, each of which can have
-- replicas on up to 64 I/O systems. The metadata server (slashd) keeps, for every bmap, a packed table
-- of the states of its replicas; it changes the table when data arrives, when a user asks for
-- replicas or drops them, and hands out leases under which clients read and write a bmap. An I/O server
-- (sliod) reads and writes the data of bmaps through a cache of slivers of 1 MiB, and sends their
-- checksums to the metadata server. Clients and
-- I/O servers reach it by remote calls; the library pfl, the configuration and the ZFS file system lie
-- outside.
--
-- Parts, from the bottom up:
--   ReplTable    include/bmap.h, include/cache_params.h: the macros that read and write one 3-bit state
--                of the packed table. Proofs: Bytes (one byte, by a table), Bits (bits of the array),
--                Slots (the table as slots).
--   BmapMds      include/bmap.h, slashd/bmap_mds.h: the states, and what the replication code sees of
--                a bmap: `Bmap`.
--   Residency    slashd/repl_mds.c `_mds_repl_bmap_apply`, `_mds_repl_bmap_walk`: every change and
--                every query of the table. Proofs: Apply (one slot), Visited (which slots), Walk
--                (changes), Query (looks), Spec (both as a whole).
--   Errors       include/slerr.h: results.
--   Inode        slashd/inode.h, slashd/inode.c, slashd/repl_mds.c `_mds_repl_ios_lookup`,
--                `_mds_repl_iosv_lookup`: which I/O systems a file has. Proofs: Lists, Table, Remove,
--                Lookup (refinement to a plain list), Vector.
--   BmapWrite    slashd/bmap_mds.c `mds_bmap_write`, slashd/mdslog.c `mdslog_bmap_repls`.
--   InvExcept    slashd/repl_mds.c `_mds_repl_inv_except`.
--   UpdWrite     slashd/repl_mds.c `slm_repl_upd_write`: the statements on the table of scheduled work.
--   Request      slashd/repl_mds.c `mds_repl_addrq`, `mds_repl_delrq`. Proofs: LastReplica, Queued,
--                AllBmaps.
--   Lease        slashd/bmap_mds.h: a lease.
--   BmapTimeo    slashd/mds_bmap_timeo.c: sequence numbers and the list of leases that time out.
--   Leases       slashd/mds.c: the chains of leases on a bmap, direct I/O, the counters. Proofs: Sums,
--                Counts.
--   IosAssign    slashd/mds.c: the choice and the assignment of an I/O server.
--   LeaseOps     slashd/mds.c: to add, upgrade and release a lease.
--   Coh          slashd/coh.c: a client is asked for direct I/O, and its answer. Proofs: Answer.
--   LeaseRpc     slashd/mds.c: the requests of clients, and the recovery at startup.
--   Bandwidth    slashd/repl_mds.c `resmpair_bw_adj`, and the report of a server in slashd/rpc_mds.c:
--                what was promised to each I/O server. Proofs: Adjust (one reservation or release),
--                Ledger (the steps), Reach (what holds after any of them), RoundTrip.
--   Traffic      slashd/mds.c `slm_bmap_calc_repltraffic`. Proofs: Bounds.
--   UpSched      slashd/up_sched_res.c `slm_upsch_tryrepl`, `slm_batch_repl_cb`: the copy of a
--                replica. Proofs: Apply, Finish (the answer), Undo and Try (the attempt).
--   UpReclaim    slashd/up_sched_res.c: reclaim and truncation with their answers, and the updates
--                that wait for a server. Proofs: Garbage, Ptrunc.
--   UpProc       slashd/up_sched_res.c `upd_proc_bmap`, `upd_proc_pagein_unit`,
--                `slm_upsch_revert_cb`, as clients of the two before. Proofs: Paging, Revert,
--                Offline, Arrange.
--   UpQueue      slashd/up_sched_res.c `upsch_enqueue`, `upd_proc`, slashd/up_sched_res.h: the queue of
--                updates and the references it holds. Proofs: Counted.
--   History      no code of its own: the steps that a table goes through by all the operations
--                above, as a relation. Proofs: Kept (each operation), Safe (all of them).
--   Replay       slashd/jreplay.c, with the entries that slashd/mdslog.c fills. Proofs: Repls, Ino,
--                Seq.
--   Crc          slashd/mds.c `mds_bmap_crc_write`, slashd/bmap_mds.c `mds_bmap_crc_update`,
--                slashd/mdslog.c `mdslog_bmap_crc`: new checksums from an I/O server. Proofs: Log (the
--                loop that logs, whose fuel is the number of updates), Recover (the replay), Update.
--   Slvr         sliod/slvr.c, sliod/slvr.h: the slivers that the I/O server caches, and `Slvr.Users`:
--                the threads that use them, as a relation. Proofs: Fits (the invariant), Use, Leave,
--                Thread, Reap (each step), Safe (all of them), Other, Stranded, Race.
--   SlvrCrc      sliod/slvr_worker.c: the thread that computes checksums, a client of Slvr.
--   SlvrAio      sliod/slvr.c: asynchronous reads and the replies that wait for them. Proofs: Order.
--   Bcr          sliod/slvr_worker.c: the updates of checksums that are collected and sent. Proofs:
--                Pending (the last checksum of a sliver), Adds (one more), Send.
--   ReplWork     sliod/repl_iod.c, and what sliod/rii.c does to it: a piece of replication work. Proofs:
--                Complete (the invariant), Turn, Reach (any sequence of turns and reads).
--   Ric          sliod/ric.c `sli_ric_handle_io`, share/bmap.c `bmapdesc_access_check`: reads and
--                writes of clients, over Slvr. Proofs: Pieces (how a request is split), Loops and
--                Serve (as steps on the cache), Failed.
--   Prelude      Boolean tests, lists and integers over the native numbers, and loops below a bound.
--   Tests, LeaseTests, SchedTests, BandwidthTests, ReplayTests, CrcTests, QueueTests,
--   SlvrTests, RicTests, AioTests, BcrTests, ReplWorkTests: the theorems at concrete states.
--
-- How the code is read: an operation is a function from a state to a state and a result; a failed
-- `psc_assert` or `psc_fatalx`, which ends the process, is `none`. A negated error number is `fail` of
-- the number. A loop over the replicas or over a list is structural recursion, so that no fuel is
-- needed except in Crc. Bytes, sequence numbers and generations wrap at their widths. One thread is
-- followed: a wait for another thread's lock or flag is taken as over, and the spin locks are left out, but the
-- busy flags and the reader-writer lock of a bmap are part of its state, since the code asserts on
-- them. What the disk, the configuration, the network and the random shuffle answer is a parameter.
--
-- In Slvr.Users every thread is followed: a step is what a thread does to one sliver under its lock, a
-- wait is a step that is not enabled, and any number of threads take steps in any order. A removal is a
-- step of its own, after the lock was dropped; the sequences in which a second thread takes the sliver up
-- in between are left to Slvr.Race. A run of `slvr_rio_done` and the like by one thread is both parts. In Ric a request
-- runs alone; where it would wait for another thread the model gives `none`.
--
-- In History an operation starts on a bmap on which no earlier change is left to be written, and a
-- connection or a batch is an outcome; new data comes to a replica that is VALID, INVALID or GARBAGE, and
-- the truncation of a file is no part of a history; what the random iterations of the scheduler pick is a parameter.
--
-- Not modelled: the truncation of a file and the SQL database of slashd/mds.c; of
-- slashd/up_sched_res.c the waits of the thread and the query that pages rows in; the replay of
-- assignments and of the namespace, of the block counts of a file, and the distribution of the logs of
-- slashd/mdslog.c; the bmap cache share/bmap.c; the client mount_slash; of the
-- I/O server sliod the handlers of sliod/rii.c, the list of active work, its bmaps and files and its
-- talk with the metadata server; the control programs and tools, which are programs of their own.
pub mod Prelude
pub mod Errors
pub mod ReplTable
pub mod BmapMds
pub mod Residency
pub mod Inode
pub mod BmapWrite
pub mod InvExcept
pub mod Coh
pub mod UpdWrite
pub mod Slvr
pub mod SlvrCrc
pub mod Ric
pub mod SlvrAio
pub mod Bcr
pub mod ReplWork
pub mod Lease
pub mod BmapTimeo
pub mod Leases
pub mod IosAssign
pub mod LeaseOps
pub mod LeaseRpc
pub mod Request
pub mod Bandwidth
pub mod Traffic
pub mod UpSched
pub mod UpReclaim
pub mod UpProc
pub mod UpQueue
pub mod History
pub mod Replay
pub mod Crc
pub mod Tests
pub mod LeaseTests
pub mod SchedTests
pub mod BandwidthTests
pub mod ReplayTests
pub mod CrcTests
pub mod SlvrTests
pub mod RicTests
pub mod AioTests
pub mod BcrTests
pub mod ReplWorkTests
pub mod QueueTests
