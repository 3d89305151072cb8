-- ===== src/Lib.antt =====
-- A verification library for yacul, a C++ library of utilities for servers. It models ten of its parts;
-- each file names the code that it is about.
--
-- Concurrency.LockRange models yacul/concurrency/lock_range.h and lock_range.cc, a lock on byte ranges.
-- The state is the record LockRange (the sorted table of entries, the waiting requests, the id counter)
-- and the functions keep the names of the member functions: overlaps, has_conflict, can_grant,
-- insert_entry, do_release. A call that can block is cut at each wait on the condition variable: begin_wait
-- runs up to the first wait, resume from one wake-up to the next wait or the end, lock_begin and
-- upgrade_begin are Lock, TryLock and Upgrade up to there. LockRange.System interleaves the threads: a
-- step relation on the lock, the held claims, the blocked requests and the guards that wait. The table is
-- a list; its scans are structural, so no fuel is needed. Sums of offset and length wrap at 2 ^ 64.
--
-- Concurrency.LockId models yacul/concurrency/lock_id.h, locks by id. The state is the record LockId: the
-- shards, each a map from an id to the address of its entry, and the heap of entries with their mutexes
-- and reference counts. The hash functor, and the address of a new entry, are parameters. In
-- LockId.System a thread calls AcquireEntry, gets the mutex or gives up, unlocks it, and calls
-- ReleaseEntry, one step each; LockId.Calls has whole calls.
--
-- Concurrency.Spinlock models yacul/concurrency/spinlock.h and spinlock.cc: the flag and the phases of the
-- threads, one step for each access to the flag.
--
-- Concurrency.ThreadPool models yacul/concurrency/threadpool.h and threadpool.cc. The record ThreadPool has
-- the members of the class; a function is a number, a time a number of ticks, and the shared flag of a
-- cancellable task is named by the id of the task. std::priority_queue is the record MaxQueue of operations
-- and laws, which ThreadPool.Orders fills for both orders on tasks. ThreadPool.Delayed has the delayed and
-- the recurring tasks and the scheduler, ThreadPool.System the threads: a worker is in a phase of
-- WorkerLoop, and each stretch of code under a mutex, or between two atomic operations, is a step; a caller that
-- submits a delayed or recurring task stands in front of the mutex as a Pending, behind the fetch_add of its id.
-- TryExpandPool reads its three numbers in one step. A wait on a condition variable may end whenever its
-- condition allows, so notifications have no place in the model. The loop of ProcessDelayedTasks takes fuel, one
-- for each delayed task and one for the end.
--
-- Memory.Buffer models yacul/memory/buffer.h and buffer.cc: reference-counted blocks of bytes, views of
-- them, and circular doubly linked chains of views. The state is a Heap that maps addresses to blocks and
-- to Buffer objects; every pointer write is an update of it, in the order of the source, so aliasing is
-- that of the program. The answers of malloc are arguments. A failed CHECK, and an access outside of an
-- allocation, give abort. The walks over a chain take fuel: a walk meets each node of the ring once, so
-- the number of nodes is what it needs. Buffer.Cursor has the cursors over a chain; a loop of theirs takes a
-- round for each node behind the current one and two more, Peek two rounds for each and three more.
--
-- Memory.Arena models yacul/memory/arena.h, arena.cc and allocator.h: a list of blocks with their addresses,
-- TryAlloc, AllocBytes with the growth by new blocks, Reset, and marks with Rewind. Sums are in size_t; the
-- theorems say which of them must not wrap.
--
-- Qos models yacul/qos: items and statistics (i_qos_item.h, qos_stats.cc), the token bucket
-- (token_bucket.cc) and the queue with its priority levels (qos.cc). Doubles and the vendored concurrent
-- queue are records of operations with the laws that the code relies on; each call is one step. The drain
-- takes fuel, one for each item that it runs and one for the end. wrr_quanta is modelled as the code uses it: as
-- the bound of a loop within one call of DequeueInternal, which keeps no count between two calls.
--
-- Misc.ScopedExec models yacul/misc/scoped_exec.h, an object that runs a functor when it is destroyed. Each
-- member function is one critical section, which hands back the functor that its caller runs behind it; the
-- record System has the objects and the functors by where they are. What a std::function holds after a move
-- from it is a parameter.
--
-- Misc.MonitorProcess models yacul/misc/monitor_process.h and monitor_process.cc, a thread that restarts a child
-- process: the static members, and the phases of MonitorLoop, which a step takes from one access that others
-- can see to the next. The system decides about forks, exits and times. The counters of restarts are ints of 32 bits
-- and wrap.
--
-- System models yacul/system/system_info.h and system_info.cc. Streams has what the code uses of the C++
-- library: texts as lists of bytes, operator>>, getline, and the stoi family. The contents of files, the
-- outputs of commands, the clock, statvfs, getifaddrs and std::sort are arguments. MemoryInfo is
-- FetchMemoryInfo, CpuStats ParseProcStat and UsagePercent, Processes ParseProcess and the queries of
-- processes, Sockets GetListeningPorts, Mounts FetchDiskInfo, Network FetchNetworkInfo and the primary
-- addresses, Tables the small files; Caches is CacheEntry and InvalidateCache, Refresh the flag and the thread
-- of the background refresh, one step for each access. The loops run over lists, so no fuel is needed.
--
-- Common has the names that the modules share, Boolean tests, lists measured by native numbers, and
-- results of code that can abort.
--
-- Not modelled: of the thread pool, the futures, GlobalThreadPool and the helpers that wait for futures; of
-- LockId, moves of guards and ActiveEntryCount; of the system information, what prints numbers, the doubles of
-- load averages, frequencies, GPUs and thermal zones, and calls that only pass a system call on; the
-- compressors, checksums and digests, which call other libraries, and their factory; logging and popen_wrapper.cc,
-- which are input and output. os_lockless_queue.h and os_murmur_hash3 are third-party code; the first is a parameter
-- of the queue.
pub mod Common
pub mod Concurrency
pub mod Memory
pub mod Misc
pub mod Qos
pub mod System
