-- ===== src/Lib.antt =====
-- Universal Fencing Hub: a server that carries out fencing actions on the nodes of a cluster through a
-- plugin, and a client program that a cluster manager calls to request them.
--
-- The client reads `key=value` arguments, connects to the server, sends one message and waits for one
-- reply. A message is a header of four bytes and, for a fencing action, two fields, each with two
-- bytes of length: the node's name and the secret. The server has one selector thread, which does
-- the input and the output of all its clients, and worker threads, which execute the requests. A
-- client of the server stands on the com queue while the selector works on it, and on the action queue
-- when its message has come; both queues are intrusive lists through the same nodes.
--
-- Which file models what (the sources are under src/):
--   MsgHeader         MsgHeader.h, MsgHeader.cpp: serialize and deserialize
--   Outcome           exceptions.h, exceptions.cpp: error codes, and what a call that can throw leaves
--   CharBuffer        the class CharBuffer of the library cppdsaext, an interface with its documented
--                     effects; CharBuffer/Plain is a buffer that meets it
--   Protocol          Shared.cpp: read_field, write_field, split_key_value_pair
--   Queue             Queue.h, on a store of links (Queue/Node)
--   GenAlloc          GenAlloc.h: the pool of clients
--   NetClient         ServerConnector.cpp: NetClient, receive_message, send_message
--   Server            Server.cpp: the fencing actions; Server/Plugin is plugin_loader.cpp, Server/Manager is
--                     PluginMgr, and Server/Running is run
--   Requests          ServerConnector.cpp: process_client_message, fence_action
--   Connector         ServerConnector.cpp: the queues, accept_connection, close_connection, the loop over
--                     the clients in selector_loop, cleanup; init (Starting); Connector/Worker is
--                     process_action_queue
--   System            ServerConnector.cpp: the selector thread and the worker threads as a step relation:
--                     where each client is (Placement, Handing), its state there (Sanity), each step, the
--                     invariant, and what it gives in every reachable state (Safety)
--   ClientConnector   ClientConnector.cpp: connect_to_server (Connecting), send_message,
--                     receive_message, check_connection,
--                     fence_action_impl
--   Arguments         Arguments.cpp; the map of cppdsaext is an interface, met by Arguments/Table
--   SocketAddress     ip_parse.cpp
--   Parameters        ClientParameters.cpp and ServerParameters.cpp: the keys, and how they are read
--   Client            Client.cpp: run, dispatch_request, the requests, and the end of main
--   WorkerPool        WorkerPool.cpp: the threads, the condition variable and the stop, as steps. A thread
--                     that an exception sends back into worker_loop without the lock has no more steps
--   Signals           SignalHandler.cpp: the stop flag and the handler of the signals
--   Base              shared helpers: lists over native numbers, bytes, Boolean tests
--   Tests             each theorem at a concrete input
--
-- State is passed explicitly. A client of the server is named by its index in the pool, and a pointer
-- is an Option. An integer keeps its width: a size_t wraps at 2 ^ 64, and the fields of a header at
-- 2 ^ 16. A call that can throw returns an Outcome with the state that it leaves. What the system
-- returns from recv, send, accept, select, dlopen, dlsym and inet_pton is an argument. The functions of
-- a plugin are functions of the name that they are given.
--
-- A step of the system is what one thread does under one lock: accept_connection, the loop over the
-- clients, taking a client off the action queue, and processing its message and giving it back. The
-- calls that the code makes without the lock it needs (close_connection by a worker thread) are whole
-- steps too; that they can come in the middle of another thread's step is not modelled.
--
-- Fuel: read_fields takes the rounds of the loop over the fields; each round moves the offset on by two
-- bytes or more, so a round for each byte of the message is enough. clear takes as many rounds as the
-- queue has nodes. The loops of the client run over the list of what send or recv returns, and give
-- `none` where the calls are used up and the loop still runs. close_com_queue and close_action_queue take
-- rounds, and serve_clients takes one for each client; process_action_queue takes a turn for each client
-- that it takes off the queue and one more.
--
-- Not modelled: what a worker thread does in its wait without the lock, which is undefined; the address
-- buffers of the clients, the options of a socket, the installation of the signal handlers,
-- server_main.cpp, log lines, and the texts that some exceptions carry.
mod Base
pub mod MsgHeader
mod Outcome
pub mod CharBuffer
pub mod Protocol
pub mod NetClient
pub mod Server
pub mod Requests
pub mod Connector
pub mod System
pub mod Parameters
pub mod Client
pub mod WorkerPool
pub mod Signals
pub mod Queue
pub mod GenAlloc
pub mod ClientConnector
pub mod Arguments
pub mod SocketAddress
mod Tests
