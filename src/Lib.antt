-- ===== src/Lib.antt =====
-- tiny_coro: an M:N scheduler for C++20 coroutines, its synchronisation and its network I/O.
--
-- The program. Coroutines are `Task`s with counted references (include/task.h). A `Scheduler` keeps
-- ready tasks in a global queue, and each of its `Worker` threads takes tasks from its own
-- work-stealing queue, from the global queue, or from the others, runs them, and parks if it finds none
-- (include/scheduler.h, include/queue.h, include/parker.h). The arrays of the work-stealing queues are
-- reclaimed by epochs (include/ebr.h). A `Reactor` thread waits in epoll (include/poller.h) and makes
-- tasks ready when a descriptor is or a timer is due (include/timer.h). Sockets (include/socket.h), a
-- mutex (include/async_mutex.h) and channels (include/channel.h) suspend coroutines and have the
-- scheduler resume them.
--
-- The files. A name is the source's, in this language's spelling.
--   Common: lists, integers and bits over the native numbers, and Boolean tests.
--   Task: frames as a partial map from addresses, and the operations of `Task`; Task/Ownership says who
--     holds a reference, Task/Lifetime runs programs over tasks, Task/Resuming is about `resume`.
--   Parker, Poller, Timer: the state and the operations of these classes; Poller is the epoll version,
--     Poller/Kqueue the one for macOS, Poller/Kqueue/Dispatch is about its events.
--   Ebr: the manager; Ebr/World adds the pointers that threads read and the allocator, Ebr/Interleaved has
--     the steps of the threads. Ebr/Advance, Ebr/Operations and Ebr/Pointers keep the invariant, Ebr/Timely
--     concludes for runs in which no load of the epoch goes out of date. Ebr/Busy, Ebr/Filled and Ebr/Stale
--     build a run in which one does, Ebr/Reclaim is about the bins.
--   Queue/Global, Queue/Array, Queue/Steal: the queues; Queue/Array/Slots and Queue/Refinement compare
--     the circular array and the operations with a list. Queue/Concurrent interleaves the owner of a
--     work-stealing queue with any number of thieves; its children keep the invariant step by step, and
--     Queue/Concurrent/Conservation concludes, and Queue/Concurrent/Alone with its child Push compares
--     with Queue/Steal.
--     Queue/Reclaimed puts that queue and Ebr/Interleaved together: its arrays are allocated and deleted.
--     Queue/Draining has what a client of a queue relies on, and the queues that provide it.
--   Scheduler: `Scheduler`, `Worker` and `run_once`; Scheduler/Spawn, Scheduler/Search,
--     Scheduler/Lifetimes and Scheduler/Turn look at one call, one search and one turn. Scheduler/Wake
--     interleaves all threads; its child Progress says what a worker reaches by its own steps.
--     Scheduler/Ownership says which references to frames the queues hold, and follows them through
--     spawn, a search and a turn. Scheduler/Contract is an abstract view of the queues together, as a
--     bag of tasks, a quotient of lists (Common/Bag); its child Refinement compares them with it.
--     Scheduler/Running has a worker's loop, turn by turn, and the end of a scheduler.
--   Reactor: the reactor's loop and `AsyncSleep`, with what the kernel, the clock and other threads do
--     as arguments of a round; Reactor/Order, Timeout, Events and Sleep are about its parts,
--     Reactor/Ownership about the references of timers and registrations.
--   Socket: awaiters, sockets and listeners; Socket/Accepting has `accept` and the reads and writes of
--     a socket; Socket/Awaiters, Socket/Descriptors, and Socket/Registered about the references of
--     registrations.
--   AsyncMutex, Channel: the operations; AsyncMutex/System and Channel/History compose them,
--     and AsyncMutex/Exclusion, AsyncMutex/Fairness, Channel/History/Balance (for values) and
--     Channel/History/Receivers conclude. AsyncMutex/Dangling follows the frame of a coroutine that
--     waits for a lock.
--   SpinLock: the lock of include/spinlock.h with its threads.
--   Http: headers and uploads of include/http/http_parser.h and include/http/http_server.h; Http/Upload.
--     Http/Response has `send_response` and a client that reads; Http/Response/Reading.
--   WebServer: src/simple_http_web.cpp; WebServer/Accepted is about the loop over clients,
--     WebServer/Replies about a connection.
--   MiniRedis: the parser and the commands of src/mini_redis.cpp; MiniRedis/Parsing, Commands.
--     MiniRedis/Connection has a connection, and the start of the server, MiniRedis/Interleaved the accesses
--     of any number of connections to the map, with the steps of AsyncMutex/System;
--     MiniRedis/Interleaved/Serial puts them in an order.
--   A file named Tests applies the theorems to concrete states.
--
-- How it is modelled. State is passed on explicitly. Pointers and coroutine handles are numbers, 0 is
-- null; an access to a frame that is not allocated gives `none`. The code of a coroutine is a parameter,
-- a function on the whole state. Machine integers are numbers with their wrap-around written out, 64
-- bits for `size_t`, 32 for `int`; the `long` counters of the work-stealing queue are integers below
-- 2 ^ 63. System calls are logged, their results are arguments. What a mutex protects is one step, and
-- so is an access to an atomic variable in Scheduler/Wake and Queue/Concurrent, in sequentially
-- consistent memory. In Queue/Concurrent an array that a thief holds is not overwritten by a new one,
-- which Queue/Reclaimed has from the epochs of include/ebr.h, as long as no load of the epoch goes out of date.
-- The loops end by structure; `poll` is the loop of 50 rounds, `loop` runs over a list of rounds and
-- `run` over a list of turns.
-- `parse_loop` has as many rounds as the request has bytes, which is enough, since each takes two, and
-- `read_head`, the client's reader, has as many as its input, since each line has its end. Connections
-- and servers run over the lists of what their system calls give.
--
-- What is not modelled: threads being created and joined, exceptions, memory orders that are weaker than
-- sequential consistency, the copy of picohttpparser in include/picohttpparser, which is a parameter
-- of Http, the `main` functions of the examples in src, and src/main.go. In Ebr/Interleaved
-- the two stores of `enter` are one step, and so is what `try_advance` does under its mutex; in
-- Scheduler each operation of the manager is.
pub mod Common
pub mod Task
pub mod Parker
pub mod Ebr
pub mod Poller
pub mod Timer
pub mod Queue
pub mod Scheduler
pub mod Reactor
pub mod Socket
pub mod AsyncMutex
pub mod Channel
pub mod SpinLock
pub mod Http
pub mod WebServer
pub mod MiniRedis
