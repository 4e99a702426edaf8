-- ===== src/Lib.antt =====
-- A file-sharing server: users register, connect and publish files, and ask who is online and what
-- a user publishes. This library models its C code.
--
-- The program. `main` of server/servidor.c accepts connections and starts a thread for each, which
-- runs `treat_request`: it reads one request from the socket, line by line (server/lines.c), calls
-- one operation of the store of users and files (server/list.c), tells a log server of the request
-- (server_rpc/), and answers a code and, for two of the operations, a list.
--
-- The files.
-- - Base: library names passed on, Boolean tests, lists over native numbers, functions on numbers
--   that are changed at one place.
-- - CString: the C strings. A `char[256]` of a node stands for the bytes before its terminator;
--   `strcmp`, `strncpy` and `strlen` are functions of such byte lists. The global `buffer` is the
--   array itself, byte by byte.
-- - Lines: `readLine`, `sendMessage` and `recvMessage`. The system's `read` and `write` are lists
--   of events: a byte, an interruption, an error; so many bytes taken, an error, or the signal
--   SIGPIPE, which ends the process.
-- - Directory: what server/list.h promises, as functions from names to accounts, with no order.
-- - Registry: server/list.c. `Defs` has the nodes, the globals, the mutex and the walk to a user,
--   `Users`, `Files` and `Lists` the operations. A C list owns its nodes, so it is the list of them
--   in order of `next`, and a write through a pointer into it gives the new list. `malloc` and
--   `getpeername` are arguments. `Search`, `FileSearch`, `Invariant` and `Refines` carry the proofs
--   of `Users.Refine`, `Files.Refine`, `Lists.Online`, `Lists.Content`, `Mutex` and `History`;
--   `Serve` puts the operations and the queries together.
-- - Threads: programs that take a mutex, access shared memory and give the mutex back, the steps
--   of a system of such threads, and the states it reaches. `Discipline` is the interface of a
--   resource under a mutex, `Keeps` and `Serial` follow what every thread that obeys it does,
--   `Lift` reads its calls and results as others; `Alone` is about a thread while no other makes
--   a step.
-- - Heap: server/list.c again, on a heap of nodes with `next` pointers, `malloc` and `free`, an
--   access at a time: the six operations (`Users`, `Files`), the two queries (`Lists`),
--   `destroy_list` (`Destroy`). `Layout` says how a heap holds a store, `Chain` is a list of it,
--   `Walk`, `Found`, `Rules`, `Free`, `Users.*`, `Files.*` and `Lists.*` follow the operations,
--   `Serves` has the code of any call, and `Concurrent` puts threads that each make one call side
--   by side.
-- - Startup: `main` of server/servidor.c before its loop. `Interfaces` is about the search for the
--   address of eth0.
-- - Accept: the loop of `main` in server/servidor.c and the first lines of `treat_request`, as a
--   relation of steps in which the threads interleave. `HandOver` has the invariant, `Exclusion` is
--   about the mutex, `WakeUp` and `Progress` about the condition variable.
-- - Rpc: `print_1_svc` of server_rpc/server_rpc.c.
-- - Request: `treat_request` of server/servidor.c, as a thread that no other disturbs. `World` has
--   what a thread can reach and its primitive steps, `Commands` and `Queries` the eight branches,
--   `Treat` the whole, `Decimal` the numbers that are sent, `Fields` the reading of a message,
--   `Wire` the messages of the six commands, `ListUsers` and `ListContent` the replies to the two
--   queries, built from the parts that `Emits` composes. `Parts` and `Cut` are about the same
--   replies whichever write fails. Two pieces are modelled again as programs of `Threads`, among
--   other threads: `Shared` is the reading of a line into the global `buffer` and its copy, a byte
--   at a time, and `Client` is `rpc_llamada` on the global `clnt`, an access at a time, each with
--   its own `Race`.
-- - Tests: the theorems at concrete inputs, and runs that can be followed in the source.
--
-- Bounds and fuel. Bytes and counts are native numbers; a count is below the number of nodes in
-- memory, so the C `int` does not overflow. `recvMessage` runs on fuel, of which it needs one
-- unit for each piece that arrives; `decimal` runs on fuel n + 1 for the number n, since each
-- round divides by ten. In `Request.Shared` `readLine` runs on one round for each event of its
-- connection and one for the end, since a round reads one. The loops of `Heap` run on as much fuel as addresses have been given out,
-- which is enough since a list does not visit a node twice; to run out would be an access to no
-- object, of which the theorems show that there is none. All other loops recur on their lists.
--
-- In `Heap`, `malloc` gives an address that has not been given out before, with contents that are
-- arbitrary, and an access to a freed node is an error. The nodes of a query's response are
-- reached by their thread alone, so there the response is a value. In `Request` outside `Shared` and
-- `Client`, a request runs with no other thread between its steps, and a read always returns in the
-- end; in `Request.Shared` a read makes no step while nothing comes.
--
-- Not modelled: a whole request among other threads. REGISTER and UNREGISTER hand list.c the global
-- `buffer` itself, which `strcmp` and `strncpy` read while other threads write it, so that the store
-- has no invariant to keep there; the calls of list.c among threads (`Heap.Concurrent`) have their
-- arguments as values. Nor the rpcgen stubs (a call of the log server is recorded with its
-- arguments), what is printed on the terminal, the C library (`snprintf` of a count gives its
-- decimal digits), and the Python client. `Heap` does not track that the nodes of a response are
-- never freed.
mod Base
mod CString
pub mod Lines
pub mod Registry
pub mod Directory
pub mod Rpc
pub mod Startup
pub mod Threads
pub mod Heap
pub mod Request
pub mod Accept
mod Tests
