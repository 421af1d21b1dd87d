-- ===== src/Lib.antt =====
-- A model of clia, a C++ library with a reactor for TCP servers and a logger, and what was proved
-- of it.
--
-- The program. A TcpServer (clia/src/net/tcp_server.cc) hands each connection to an EventLoop,
-- which waits in an Epoller for the events of Channels and calls their handlers; those of a
-- TcpConnection read into one Buffer and write from another. Other threads reach a loop through
-- its queue of functors and an eventfd. New connections come from an Acceptor. A line of the log is
-- an Event, which prints into a FixedOStream and hands the text to a Logger; the AsyncLogger takes
-- it into large FixedBuffers, which a thread of its own hands to an Appender, and the FileAppender
-- writes them to files that it rolls.
--
-- The files and the code.
-- Prelude: Boolean tests, lists over the native numbers, and Outcome, the value of a call or the
-- fault that ends the process. The build is the Makefile's, CMAKE_BUILD_TYPE=Debug, where assert
-- stops the process. An access outside of an array is the fault bad_access.
-- Prelude/Strings has texts as the codes of their characters.
-- Util/StrFunc: clia/clia/util/str_func.h. The loop of convert has 20 rounds of fuel, as many as
-- the digits of 2^64 - 1; Printed reads the text back.
-- Util/Timestamp: clia/src/util/timestamp.cc, with Order on its comparisons and Width on the length
-- of its text.
-- Util/AtomLck: clia/src/util/atom_lck.cc with clia/clia/base/lock_guard.h; a step is a turn of the
-- loop in lock, or a lock or unlock by one thread, and Exclusion has the schedules.
-- Util/CountDownLatch: clia/src/util/countdown_latch.cc; Counting has sequences of its calls.
-- Util/Process: clia/src/util/process.cc; Errors has sequences of calls of strerror.
-- Container/FixedBuffer: clia/clia/container/fixed_buffer.h, a method per function; Contents has
-- the bytes that it holds.
-- Container/CircularBuffer: clia/clia/container/circular_buffer.h. `finish` is end_. Fifo relates
-- the indices to the elements in order, Runs to a bounded queue, Resize is about resize.
-- Container/BoundedBlockingQueue: clia/clia/container/bounded_blocking_queue.h, the sections of
-- put and take under the mutex; a call that waits is none.
-- Container/FixedOStream: clia/clia/container/fixed_ostream.h; one function for each kind of operand,
-- since the nine for integers differ in the type alone. Printing has chains of operands.
-- Log/Trait: clia/src/log/trait.cc, the levels.
-- Log/SyncLogger: clia/src/log/sync_logger.cc.
-- Log/StdoutAppender: clia/src/log/stdout_appender.cc.
-- Log/Macros: the other macros of clia/clia/log.h; Formatted holds those with a format against those
-- with operands, Levels has the ones that log by the default logger.
-- Log/Pipeline: the interface Appender of clia/clia/log/trait.h, between an AsyncLogger and a
-- FileAppender; Written follows the bytes from the one to the files of the other.
-- Log/Event: clia/src/log/event.cc and the macros CLIA_LOG and CLIA_LARGE_LOG of clia/clia/log.h.
-- Time is about kTimeBuf, Line about one line, Logged about a line on its way into an AsyncLogger,
-- Large about LargeEvent.
-- Log/LoggerManger: clia/src/log/log.cc; Lookup has sequences of its changes.
-- Log/FileAppender: clia/src/log/file_appender.cc. Writing is about the loop around fwrite_unlocked,
-- Calls and Rolling about what is written between two calls of fopen, Files about the bytes of one
-- file, which fopen opens at its end, Appends about sequences of appends,
-- OldFiles and Dates about del_old_files.
-- Log/AsyncLogger: clia/src/log/async_logger.cc. log and the sections of sync_thread are
-- functions; System has the thread, the producers and the destructor as interleaved steps, with the
-- moves of the buffers in log as steps of their own, since the test of the loop takes no mutex; Buffers,
-- Delivery and Partway follow the bytes through a step, NoLoss through all of them, Leaving is about
-- that test.
-- Reactor/Channel: clia/src/reactor/channel.cc, the events as one Boolean per bit, the dispatch.
-- Reactor/Epoller: clia/src/reactor/epoller.cc, with the methods of Channel that end in it. A
-- Channel* is a number, at which the store has the object. Kernel is the documented behaviour of
-- epoll_ctl, against which the requests are held; Registry has the agreement of the two, Changes
-- its preservation by a change or a removal, Reached the sequences of these and of polls.
-- Reactor/EventLoop: clia/src/reactor/event_loop.cc. Phase is where the loop's thread stands; loop
-- and do_pending_functors are cut into the steps between which another thread can act; Queue has
-- the interleavings, with the two halves of queue_in_loop as steps of their own, Interleaved the
-- steps of the loop itself, Start what comes before loop has begun.
-- Reactor/EventLoopThread: clia/src/reactor/event_loop_thread.cc. Steps has the order in which
-- the thread and its owner step, Published is about loop_, Joining about the destructor.
-- Reactor/EventLoopThreadPool: clia/src/reactor/event_loop_thread_pool.cc. RoundRobin has the
-- order of the loops.
-- Net/Buffer: clia/src/net/buffer.cc, a method per function. Bounds, Contents and Socket are about
-- single calls, Bytes and Stream about sequences of calls and the stream of bytes that they stand
-- for, Moved about moving.
-- Net/TcpConnection: clia/src/net/tcp_connection.cc, with send, shutdown and send_in_loop in Send.
-- The connection has the poller of its loop and the number of its channel in it. Open is the state
-- of an open connection, Sending and Writing follow the bytes, Reached the sequences of calls,
-- Closing and Ending the end of a connection. Dispatch is the dispatch of
-- clia/src/reactor/channel.cc with the methods of a connection for its callbacks; Bound, Stages and
-- Dispatched follow it.
-- Net/TcpServer: clia/src/net/tcp_server.cc. What the server hands to its loops is a list of
-- tasks; Counts counts what becomes of a connection, Accounts follows the counts through the
-- methods; Serving has the server with its acceptor.
-- Net/InetAddress: clia/src/net/inet_address.cc; Printed has the text of an address.
-- Net/Socket: clia/src/net/socket.cc, the calls of the kernel as a list.
-- Net/Acceptor: clia/src/net/acceptor.cc. Channels has what a change leaves of its channel,
-- Accepting its life from the constructor to the destructor.
--
-- Choices. A size_t is a native number with the wrap-around at 2^64 written out; a vector of bytes
-- has at most 2^63 - 1. A byte is any number, since bytes are only moved. What the kernel answers
-- (readv, write, epoll_wait) is an argument of the call that asks. Loops are structural recursion
-- on the lists that they walk; only convert has fuel. The loop around fwrite_unlocked walks the list
-- of the answers. A callback of the user is recorded where it
-- is called, and what it calls in turn is a call of its own. A mutex makes its section one step,
-- except in the AsyncLogger.
--
-- The texts of snprintf for floating point and of %p, of localtime_r, inet_ntop and inet_pton, the
-- clock, the directory and the answers of stdio are arguments too. Times are those since the epoch.
--
-- Not modelled. Threads as such;
-- clia/clia/util/memory_pool.h, which has declarations alone. errno and the text of log messages are
-- left out where the code only logs them.
pub mod Prelude
pub mod Util
pub mod Container
pub mod Log
pub mod Reactor
pub mod Net
