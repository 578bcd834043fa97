-- ===== src/Lib.antt =====
-- libh6 is a C library for relaying byte streams between clients: event loops over libev, watches
-- that send blocks of memory through sockets, queues of requests, and a scheduler that spreads the
-- events over the loops. This library models the parts of it that keep state and proves what makes
-- them correct.
--
-- Base holds what all share: Boolean tests on the native numbers (Base/Tests), list helpers
-- (Base/Lists), 32-bit arithmetic with its wrap-around (Base/Words), and Yields, the statement
-- that a computation of an Option gives a result with a property, so that running out of rounds is
-- excluded. Errno has the result codes: `ok` for 0 and `minus e` for -e.
--
-- Heap, LinkList and Queue model src/queue.c and include/queue.h. A pointer is a number, 0 is
-- NULL, and the memory is a function from pointers to the nodes allocated. An action reads and
-- writes the memory and ends with a value (`done`), with an access through NULL or to a freed node
-- (`trap`), or out of rounds (`starved`). `calloc` is not modelled: each function that allocates
-- takes the pointer that it returned, NULL for a failure, and a theorem that needs a fresh node
-- says so. A loop takes a number of rounds as fuel. Each theorem says how many are enough: as a
-- rule one more than the nodes ahead. Heap/Chain is the predicate that a chain of nodes holds a
-- sequence of items, with links both ways; Heap/Cut splits it at a node; `IsQueue` adds the
-- queue's head, tail and count. LinkList/Ends, Insert, Find, Unlink and Free prove the list
-- functions, Queue/Push, Pop and Clear the queue's, and Queue/Script runs any sequence of calls
-- against a sequence of items.
--
-- MemBlock models include/mem_block.h and src/mem_block.c: blocks, whose memory at `ptr` is a list
-- of bytes, the cache of blocks, where a block is a number, and gathering (MemBlock/Gather).
--
-- ProtoWatch models src/proto_watch.c: the backlog of blocks, the sequence window,
-- `proto_watch_write_mb`, `__proto_watch_write_pending`, attaching and killing. The system call
-- `send` is a parameter, a function from the network's state and the bytes offered to a result and
-- a new state, and the hypothesis TakesAtMost says that it takes no more bytes than it is offered.
-- The event loop sees only which events are wanted, so the watch's state records them. The rounds
-- of the loops are fixed by the length of the data: one more than the bytes left of a block, and
-- two more than the blocks of the backlog. ProtoWatch/Dispatch models what a watch does when its
-- event fires: the parser, `getsockopt` and the user's callbacks are parameters, gathered in the
-- record Outside, and IsOutside has what is asked of them; the reading loop runs as long as the
-- parser has messages, so its rounds are a number above those. ProtoWatch/Dispatch/Rules has the
-- rules of what leads to which callback, without rounds, and ProtoWatch/Dispatch/Keeps relates the
-- code to them. Locks are left out: each operation runs whole under the watch's lock.
--
-- Sched models src/h6_sched.c: the weights of the loops and of the events. The list of entries is
-- a list here, with the operations that LinkList proves on memory. The event loops themselves,
-- their threads and the lock are left out.
--
-- EvLoop models src/h6_ev.c: an event loop, the operations that other threads leave in its queue,
-- and the reference counts of the events. The memory of events is a function from numbers to the
-- events allocated; reading a freed event, or a failed assertion, is `none`. The calls to libev,
-- to the event's destructor and to the wake-up pipe are recorded in order. EvLoop has the
-- requests, EvLoop/Steps what the loop's thread does with them; EvLoop/Refs counts the references
-- of users, of the list and of the queue, and EvLoop/Requests, EvLoop/Steps/Sync and
-- EvLoop/Steps/Exec follow that count through the operations. EvLoop/Users lets users take and
-- drop references, EvLoop/Steps/Callbacks is what the thread does within callbacks, and
-- EvLoop/Script puts all of these in sequences; EvLoop/Life makes a loop and lets it go, over
-- which of its parts are allocated. Masks have the two bits EV_READ and EV_WRITE. Between
-- operations of the queue the source releases the lock; the requests of other threads then find a
-- state of the same kind. Of the trace messages only the reads of a count behind an unref are
-- modelled, which find a freed event as any other read does; EvLoop/Steps/Freed is about these.
--
-- Trace models src/trace.c. Trace has the ring of bytes that trace lines go through, its reads and
-- writes and the printing loop, whose rounds are a number: more than the bytes of the ring are
-- enough. Trace/Valid says what the ring holds, Trace/Write, Trace/Read and Trace/Print prove the
-- operations, Trace/Overrun what a write without room does. Trace/Line has `trace` and
-- `trace_args`, with the C library's `vsnprintf` as a parameter of which the record Formats says
-- what its standard documents. Trace/System is the printing thread and one tracing thread as a
-- step relation: each step is what a thread does within one hold of the lock or in one call on the
-- semaphore; IsTidy says of a step that a string it begins to write has no zero and is shorter
-- than the ring, which the steps themselves do not ask: `trace_args` writes others, for which
-- Trace/Overrun shows what is lost. Trace/System/Flow and Trace/System/Inv have the invariant of
-- runs with such strings, Trace/System/Delivered what follows from it. That the worker ends is not
-- shown: `cycle` in its printing loop is not initialised.
--
-- Links models include/list.h: circular lists through nodes that stand inside other objects, on a
-- memory that gives each node its two pointers. Links/Joins says which nodes a list has,
-- Links/Apart that none comes twice; Links/Insert and Links/Remove prove the operations.
--
-- Client models src/client.c with the references of src/obj.c: the memory of clients and sets,
-- where a freed object is `none`, and the lock of a set as a flag, so that a thread that takes a
-- lock it holds ends as `deadlock`; a failed assertion or an access to freed memory is `fault`.
-- The functions in a client's `ops` are recorded as calls, with what `init` and `attach` return as
-- a parameter. Client/Valid says what a set with its members is, Client/Members adds and removes
-- them, Client/Unref kills a client, Client/Kill a set; Client/Alloc makes a client. Each
-- operation runs whole.
--
-- Listener models src/listener.c in the same way, with `h6_local_proxy_server_bind_port` of
-- src/h6_local_proxy_server.c: a set holds a reference to each of its listeners. The pointer of a
-- listener to its set holds what `malloc` left there. The loop over the members takes a number of
-- rounds; more than the members are enough (Listener/Drain). Listener/Removed takes a listener out
-- of its set.
--
-- NetClient models src/network_client.c: a client and its watch, each with its references and
-- whether it is still allocated. The client is in no set; of its functions `init`, `kill`, `fin`
-- and those for a closed or failed connection are called, which are recorded, or whose result is
-- an argument. A request to the loop of a scheduler, to remove the watch or to wait for writing,
-- takes a reference to the watch that the loop gives back later, as EvLoop has it, here without
-- its trace; the loops have not quit. NetClient/Made makes both, NetClient/Sent is sending on top
-- of ProtoWatch, NetClient/Released the end of both, NetClient/Closed the reports of a watch that
-- the connection is closed or failed.
--
-- Server models src/h6_basic_server.c and the rest of src/h6_local_proxy_server.c: a server with
-- its references, its two sets, on the memories of Listener and Client, and whether it has a
-- scheduler, of which it is counted how many run. The field `port` of a listener is a function
-- from the listener. What `h6_sched_new`, `lsn_set_new` and `client_set_new` return is an
-- argument. Server/Ports finds and removes the listener of a port, Server/Life makes, runs and
-- kills a server; the rounds are those of Listener.
--
-- RelaySet models src/h6_relay_set.c: the links and `pair->set` of the pairs, and the locks of the
-- sets. RelaySet/Pairs is the same on lists of numbers, RelaySet/Calls relates the two.
--
-- Msg models src/msg.c and src/proto_parser.c: the array of the functions of each type of message,
-- where an index behind its four entries is a `fault`, and parsers with their references.
-- Messages, blocks and the functions themselves are arguments.
--
-- H6Client models src/h6_client.c and `network_client_msg_recv` of src/network_client.c: which
-- function a message reaches, where the functions are arguments that read and change a state of
-- any type (H6Client/Table gives them as a table), and `h6_client_new` on top of NetClient, where
-- the pointer to the functions is what `malloc` left until it is set (H6Client/New).
--
-- UnixSock models what src/unix_sock.c does with descriptors, of which it is known whether they
-- are open; what the system calls answer is an argument. H6Listener models src/h6_listener.c over
-- it: a listener with its socket and its event, which is on the scheduler of Sched. The loops of
-- the scheduler are not quitted, so that each request to one takes a reference to the event, which
-- the loop gives back later, as EvLoop has it. H6Listener/Ports binds a port, H6Listener/Fin is
-- the end of a listener, H6Listener/Events what its event does with connections.
--
-- Not modelled: locks other than those of Trace/System and of the sets, libev, sockets beyond
-- `send` and their descriptors, the text of time stamps and `trace_dump` of src/trace.c, the names
-- and sizes of objects, messages and the other callbacks of the watch in src/network_client.c, the
-- factory, whose functions are all the user's, and the unfinished src/h6_client_imp.c,
-- src/h6_server.c and src/h6_listen_server.c.
pub mod Base
pub mod Heap
pub mod LinkList
pub mod Queue
pub mod Errno
pub mod MemBlock
pub mod ProtoWatch
pub mod Sched
pub mod EvLoop
pub mod Trace
pub mod Links
pub mod Client
pub mod Listener
pub mod NetClient
pub mod Server
pub mod RelaySet
pub mod Msg
pub mod H6Client
pub mod UnixSock
pub mod H6Listener
