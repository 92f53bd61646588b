-- ===== src/Lib.antt =====
-- beast-router: a C++ library of headers that puts routing tables, sessions, listeners and connectors
-- on top of Boost.Beast and Boost.Asio.
--
-- The parts, and how they meet. A `listener` (Listener; include/beast_router/listener.hpp,
-- include/beast_router/impl/listener.ipp) accepts sockets and a `connector` (Connector;
-- include/beast_router/connector.hpp, include/beast_router/impl/connector.ipp) connects them. A
-- `session` (Session; include/beast_router/session.hpp, include/beast_router/impl/session.ipp) owns
-- one socket as a `connection` (Connection; include/beast_router/common/connection.hpp,
-- include/beast_router/common/ssl/connection.hpp), a `timer` (Timer;
-- include/beast_router/common/timer.hpp), a queue of messages to write (ConnQueue;
-- include/beast_router/base/conn_queue.hpp) and a `dispatcher` (Dispatcher;
-- include/beast_router/base/dispatcher.hpp). The dispatcher looks up the tables that a `router`
-- (Router; include/beast_router/router.hpp, include/beast_router/impl/router.ipp) has filled, whose
-- entries are chains of handlers (Storage; include/beast_router/base/storage.hpp, over the traits of
-- Utility; include/beast_router/common/utility.hpp). The handlers talk back through a `context`
-- (Session.Context, Session.Launch). HttpUtility (include/beast_router/common/http_utility.hpp) makes
-- messages, and EventLoop (include/beast_router/common/event_loop.hpp) runs the threads. Base holds
-- what these share, and Tests small runs of them. Lockable (include/beast_router/base/lockable.hpp) is
-- the lock around a routing table, which the dispatcher shares and a registration owns. Examples holds
-- the programs in examples/: the server of files (Examples.TimeCounter; examples/time-counter/main.cpp),
-- the server that counts (Examples.HelloWorld; examples/hello-world/main.cpp and
-- examples/ssl/hello-world/main.cpp), `main` of the three servers as a listener with its
-- sessions (Examples.Servers) and the clients (Examples.Client; examples/client/main.cpp,
-- examples/ssl/client/main.cpp) with `main` as a connector with its session (Examples.Client.Running).
-- Session.Overloads is about the types of the static functions that launch a session. AsyncConnection
-- (include/beast_router/base/connection.hpp, include/beast_router/base/strand_stream.hpp) binds the
-- handlers of a connection to the strand of its owner, those of a TLS handshake included.
--
-- How state is modelled. Each class is a record with the members' names and each member function is a
-- function from the state before to the state after. `Base.Outcome` says how a call ends: with a
-- value, by an exception, or in undefined behaviour, as with `front()` of an empty queue. The routing
-- tables stand in a store behind pointers, since a dispatcher shares the table of its router. Handlers
-- are functions on the context and on a state `W` that stands for all that they can reach.
--
-- How asynchrony is modelled. A started asynchronous call is recorded in the list `started`. Its
-- handler is a function of the state at its completion and of what it is given. `Session.Steps.Step`
-- has one constructor for each call of the context and for each handler, and `Reach` puts them in any
-- order; only a write that has been started and has not completed can complete, the oldest first. The
-- accept loop and the strand of the listener are `Listener.Accepting.run` over any sequence of events,
-- and `Examples.Servers.Running.Step` puts them together with the sessions of a program.
-- `Session.Flow` is the abstract view of a session: what is queued, what was written and what was
-- sent.
--
-- Parameters. Boost and the standard library are arguments of the definitions: error codes with the
-- tests that the code makes (`Session.Boost`), streams, timers, acceptors, the `io_context`, messages
-- and files, and for the dispatcher `regex`, `regex_match` and the order in which a hash map is walked
-- (`Dispatcher.Env`). A theorem that needs more than their types has it as a hypothesis: that the walk
-- visits each resource once, that a timer keeps its expiry when it is cancelled.
--
-- Bounds. The loop of `event_loop::exec` is recursion on fuel and is given the number of threads,
-- which it counts up to from 1; that is enough for a number of threads below 2 ^ 32, where its counter
-- wraps. The counter of the hello-world server wraps at 2 ^ 64. The other loops are structural. Other
-- sizes and counters are unbounded; none of the code counts beyond the messages, handlers or threads
-- that there are.
--
-- `Lockable.Exclusion.Step` interleaves requests and registrations on any number of threads,
-- `Lockable.Sequential.Sequential` is the same one at a time, and `AsyncConnection.Strands.Step`
-- interleaves the handlers of a connection on the threads that run them; elsewhere a call of the
-- dispatcher is one step. `Examples.Client.Reaching.Step` lets the calls of a client complete in any
-- order. `Session.Serving` puts the session, its dispatcher and the handlers' effects on the session
-- together. `Session.Rereading` adds the buffer and the parser, which Boost's read changes; elsewhere
-- what a read has given is an argument of `on_read`. `Session.Context.dispatch` is told whether Boost
-- runs the function within the call, as it does on an idle strand and a thread of the `io_context`, or
-- queues it.
--
-- What is not modelled: the set-up of the TLS context in the examples, printing, and the macros of
-- include/beast_router/base/config.hpp except `ROUTER_ASSUME` (Dispatcher.Assuming). The unit tests,
-- tests/tst_router.cpp, are run on the model in Tests.UnitTests.
pub mod Base
pub mod Utility
pub mod Storage
pub mod Router
pub mod Dispatcher
pub mod Timer
pub mod AsyncConnection
pub mod Connection
pub mod ConnQueue
pub mod Session
pub mod Listener
pub mod Connector
pub mod HttpUtility
pub mod EventLoop
pub mod Lockable
pub mod Examples
pub mod Tests
