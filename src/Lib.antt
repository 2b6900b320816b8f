-- ===== src/Lib.antt =====
-- TalonRPC, an RPC framework over TCP: protobuf services are called through a small binary
-- protocol, on event loops over epoll, and found through a service centre. This library models the
-- framework's own code and states what makes it correct. Paths are from the repository's root.
--
-- How the parts work together. A server (net/tcp/tcp_server.cc) accepts a connection and gives it
-- to an IO thread (net/iothread.cc), whose event loop (net/eventloop.cc) runs the callbacks of the
-- descriptors that epoll reports and the tasks that other threads have added. The connection
-- (net/tcp/tcp_connection.cc) reads bytes into a buffer, the coder cuts messages out of it, the
-- dispatcher (net/rpc/rpc_dispatcher.cc) finds the service and the method, runs it, and its closure
-- encodes the response into the output buffer. A client (net/rpc/rpc_channel.cc,
-- net/tcp/tcp_client.cc) asks the service centre for the address of a method, connects, writes the
-- request and waits for the response with the same id, with a timer (net/timer.cc) running.
--
-- Which file models what. A directory beside a file holds the statements on it, and each module Runs
-- applies them to concrete inputs.
--   Prelude       shared names, lists over the native numbers, int as a pair of halves, text,
--                 std::to_string and atoi, std::map, and `Outcome`, the result of running code
--   Memory        memcpy within a vector
--   Buffer        net/tcp/tcp_buffer.cc (writeToBuffer is write_to_buffer, and so on)
--   Coder         net/coder: Protocol is TinyPBProtocol, Net is htonl and getInt32FromNetByte of
--                 common/util.cc, Encode and Decode are the two halves of tinypb_coder.cc; Wire is
--                 the byte format by itself, and StringCoder is string_coder.h
--   FdEvent       net/fd_event.cc and net/fd_event_group.cc
--   EventLoop     net/eventloop.cc: a round of the loop; Start is the constructor; Steps is the loop in
--                 single steps, with the tasks that its callbacks add
--   Timer         net/timer.cc and net/timer_event.cc; Firing is onTimer in single steps
--   Connection    net/tcp/tcp_connection.cc; the loops around read() and write()
--                 are in Loops, onRead and excute in Execute; Serving is one end of a connection,
--                 Exchange both ends, and
--                 Exchange.Call an RPC from its channel to the service and back; Life is what
--                 follows a shutdown
--   Client        net/tcp/tcp_client.cc
--   IoThread      net/iothread.cc: the steps of the thread and of the one that makes and starts it
--   IoThreadGroup net/iothreadgroup.cc; Start is its constructor and start
--   Acceptor      net/tcp/tcp_acceptor.cc
--   Server        net/tcp/tcp_server.cc; Start is init
--   Rpc           net/rpc: Controller, Closure (with RpcInterface), Dispatcher, MsgId, Channel; Replies
--                 describes what a server replies to a request, Answer that it does
--   Discovery     net/service_discovery: Center is what run_server_discovery.cc does with a message,
--                 Main its set-up and its loop over epoll, Client the commands and serviceDiscovery
--   NetAddr       net/tcp/net_addr.cc and RpcChannel::FindAddr
--   ConfigReader  common/config_reader.h
--   Config        common/config.cc
--   Log           common/log.cc and log.h: the queues; Async is the thread that prints, with flush of
--                 Logger, Event the text of a line and the macros
--   Mutex         common/mutex.h
--   HighAvai      common/high_availability.h: the count of restarts
--
-- How code became definitions. A member function is a function from the object's record to the new
-- record, in `Outcome` where it can go wrong: `fault` is undefined behaviour (an access out of
-- bounds, an int that overflows, a null pointer), `uncaught` an exception that nothing catches, and
-- `stuck` a loop for which there is no more fuel or no more input. Members keep their names without
-- the prefix m_. Bytes and characters are numbers below 256. What a system call returns is an
-- argument: one read() or write() is one element of a list. A std::function is a value of a type
-- that is a parameter, and so is what it does. Protobuf is a parameter too: a service is a record
-- of what the dispatcher asks of it. TinyXML is a function from the path of an element to its text,
-- inet_ntoa and the clock are functions. Where several threads meet, each hold of a mutex, or each
-- access to what they share, is a step: of a list of calls in any order for the timer, of a step
-- relation for the start of an IO thread. That holds of the same mutex do not overlap is assumed
-- there, since the guard of common/mutex.h, which unlocks twice, does not ensure it; the steps of
-- the event loop therefore have the calls of addTask from its own thread only.
--
-- Bounds and fuel. The outer loop of decode runs on fuel, and `decode` gives it one round more than
-- there are unread bytes: a round that finds a packet moves the read index on, except where the
-- packet's length is not positive, and there the loop of the program does not end either. All other
-- loops are by recursion on what they go over. The lives of a program under HighAvai are counted
-- down from a number given; limit + 2 are enough to reach its end. A write loop or a read loop that
-- gets no more results is `stuck`, since the program would call again.
--
-- What is not modelled: the calls of the system themselves (sockets, epoll, threads, fork, exec)
-- and the signal handlers, except for the flush of the logger, since their code is the system's and
-- what it gives back is an argument; the locks that the components take (Mutex models the guard by
-- itself, and what a lock is there to make one step is one step); calls of addTask by other threads
-- between the steps of a loop; that connections on one IO thread share one loop (each has it as it
-- was when it was made); the log lines that the components write; TalonException, an abstract
-- class; the generated order.pb files and the programs under test/.
pub mod Prelude
pub mod Memory
pub mod Buffer
pub mod Coder
pub mod FdEvent
pub mod Discovery
pub mod NetAddr
pub mod ConfigReader
pub mod Config
pub mod EventLoop
pub mod Connection
pub mod Rpc
pub mod Timer
pub mod Client
pub mod IoThread
pub mod IoThreadGroup
pub mod Acceptor
pub mod Server
pub mod Log
pub mod Mutex
pub mod HighAvai
