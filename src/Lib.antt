-- ===== src/Lib.antt =====
-- OugeNetLib is a TCP library in C++ in the reactor style: an event loop per thread polls the kernel
-- for the descriptors that are ready, and runs the callbacks of the channels that stand for them. A
-- connection is a channel, two byte buffers and a state; its loop alone changes it.
--
-- Which file models which part:
--   Common: lists, machine words, arrays of bytes and the faults that stop the program. `size_t` has
--     64 bits, with the wrap-around written out (`add_size`, `sub_size`).
--   Buffer: net/Buffer.h and net/Buffer.cc. The vector is a list of bytes with the two indices of the
--     source. The results of `readv` are a parameter. Endian: net/Endian.h.
--   Channel: net/Channel.h and net/Channel.cc, the event masks, `handleEvent` and the text of events.
--   Poller: net/Poller.h, net/Poller.cc and net/EPollPoller.h, net/EPollPoller.cc. The kernel's side of
--     epoll is the record `Epoll`, an interest list with the laws that epoll_ctl(2) documents.
--   TcpConnection: net/TcpConnection.h and net/TcpConnection.cc. An operation gives the connection after
--     it and a list of effects: bytes that the socket took, calls of the poller, callbacks, and what it
--     queued in the loop. Connection, Buffer and Channel meet here: `sendInLoop` appends to the output
--     buffer and enables writing, `handleWrite` retrieves from it, `handleRead` fills the input buffer.
--   EventLoop: net/EventLoop.h and net/EventLoop.cc, the pending functors and wake-ups. The loop's thread
--     and the others are steps in any order; another thread pushes and wakes in two steps. Its children
--     hold the active channels of a poll, over Poller, the timers, over TimerQueue, and the loop that each
--     thread counts as its own.
--   EventLoopThread: net/EventLoopThread.h and net/EventLoopThread.cc. EventLoopThreadPool:
--     net/EventLoopThreadPool.h and net/EventLoopThreadPool.cc; what `startLoop` of its threads gives is a
--     parameter, which TcpServer/Threads fills with that of EventLoopThread.
--   Connector: net/Connector.h and net/Connector.cc. What the system calls return is an argument, and
--     an operation gives its effects like one of a connection.
--   StringPiece: base/StringPiece.h, pieces of memory, how they are made and compared.
--   Timestamp: base/Timestamp.h and base/Timestamp.cc. TimerQueue: net/TimerQueue.h,
--     net/TimerQueue.cc, net/Timer.h and net/Timer.cc. A timer is an address in a heap that the allocator chooses; the callbacks of the timers
--     that expire add and cancel timers while `handleRead` holds the expired ones.
--   Sockets: net/SocketsOps.cc, what the wrappers make of the results of the system calls. InetAddress:
--     net/InetAddress.cc with the address functions of net/SocketsOps.cc.
--   Acceptor: net/Acceptor.h and net/Acceptor.cc, the listening socket and the reserved descriptor.
--   TcpServer: net/TcpServer.h and net/TcpServer.cc. The server takes the loop of a connection from
--     EventLoopThreadPool and gives the loops the tasks that call TcpConnection. TcpServer/System puts
--     them together: the server, its connections by name, and the tasks that wait in all the loops. A step
--     is a new connection, an event of a connection, or any task that waits, so that it has every order
--     in which the loops can run them; `closeCallback_` is `TcpServer::removeConnection`. `startRead` and
--     `stopRead` of a connection that has closed are no step, nor is the destructor of the server.
--   TcpClient: net/TcpClient.h and net/TcpClient.cc. The client holds its Connector, whose callbacks hand
--     over the socket of the client's connection. TcpClient/System adds its connections by their addresses
--     and the calls of `connectDestroyed` that wait in its loop: `closeCallback_` is
--     `TcpClient::removeConnection`, which runs within the event that closes the connection.
--   ThreadPool: base/ThreadPool.h and base/ThreadPool.cc, workers and callers as steps in any order. Who
--     waits on a condition sleeps until a notification, or a spurious wake-up, lets it test again.
--   CountDownLatch: base/CountDownLatch.h.
--
-- A failed `assert`, an exception of `std::vector` and an access outside an array are the faults of
-- `Result`, and so is the use of a null pointer; an operation that succeeds gives `ok`. There is no
-- fuel in the operations, whose loops are structural; `drain` of TcpServer/System, which runs the tasks
-- that wait, has as its fuel twice their number, which is enough since a task leaves at most one other.
--
-- Not modelled: logging, what a socket option does, the clock, threads and locks as such, `boost::any`
-- contexts, the error number behind `handleError`, the socket options of net/Socket.cc, and the glue of
-- base. `take` of the two blocking queues and `put` of the bounded one do not compile where they are used,
-- and nothing uses them.
pub mod Common
pub mod Buffer
pub mod Endian
pub mod Channel
pub mod Poller
pub mod TcpConnection
pub mod Connector
pub mod EventLoopThreadPool
pub mod EventLoopThread
pub mod EventLoop
pub mod StringPiece
pub mod Timestamp
pub mod TimerQueue
pub mod Sockets
pub mod InetAddress
pub mod Acceptor
pub mod TcpServer
pub mod ThreadPool
pub mod TcpClient
pub mod CountDownLatch
