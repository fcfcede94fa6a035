-- ===== src/Lib.antt =====
-- A key-value server with three front ends, its clients and their benchmarks.
--
-- The program keeps byte strings under byte-string keys. The TCP server (src/server/main.cpp) runs one
-- coroutine per connection on an event loop (src/net/event_loop.cpp); the coroutine collects bytes,
-- takes out complete lines, parses each (src/protocol/text_protocol.cpp), calls the store
-- (src/kvstore/kv_store.cpp) and sends the response. The RDMA server (src/server/rdma_main.cpp) does
-- the same for each message of a client (two-sided mode), or exports a hash table of fixed layout
-- (src/kvstore/rdma_store.cpp) that the clients (src/client/rdma_client.cpp) read and write over the
-- network without the server's processor (one-sided mode).
--
-- Which file models what, with paths from the repository's root:
--
-- Prelude.antt and the files below it: shared notation, Boolean tests, equality by instances, lists over
--   the native numbers, bit_and with a mask, byte strings. A byte is a number below 256, a string is a
--   list of them.
-- Assoc.antt: std::unordered_map as an association list that holds a key at most once; its order is
--   left open in the source, and no theorem speaks of it.
-- Protocol.antt: include/protocol/text_protocol.hpp and src/protocol/text_protocol.cpp, function by
--   function, with isspace and tolower of the C locale. Protocol/ holds the lemmas on trimming and
--   searching, what parse_request returns, and the round trips.
-- KvStore.antt: src/kvstore/kv_store.cpp. The mutex is held during each method, so that a run of several
--   threads is a sequence of calls. KvStore/Refine.antt compares it with a finite map.
-- RdmaStore.antt: src/kvstore/rdma_store.cpp. The slots are a list of num_slots = 4096 records; a slot
--   keeps its state, its counter, and the bytes of the two char arrays. Hashes wrap at 2 ^ 32. The loops
--   recurse on the rounds that are left and start with 4096, as the source's loops do. RdmaStore/ holds
--   the search along a probe sequence, the invariant of the table, and what each method does to all keys.
-- Server.antt: handle_request of src/server/main.cpp, what handle_client does with one line, and what
--   handle_two_sided_client of src/server/rdma_main.cpp does with one message.
-- Server/Session.antt: the coroutine handle_client as a state machine. Its events are the results of
--   recv and send and the resumptions by the event loop; Reaches relates a session to the bytes that it
--   has received. Server/Session/ relates what it sends to the lines in its input.
-- Server/Shared.antt: all connections of the TCP server on its one store. A turn is one step of one
--   coroutine, on the store as it is then; Runs has the turns in any order. Server/Shared/Log.antt serves
--   the same lines one after the other, and Server/Shared/Linear.antt compares the two.
-- RdmaContext.antt: src/net/rdma_context.cpp. libibverbs is the parameter Verbs, which says what it answers
--   to each creation; the list of calls is kept so that theorems can say what is live. The list of devices,
--   which init frees before it opens a device, is kept apart from the six resources that are replayed. A call of
--   poll_completion recurses on what polling finds, and has no result where that list ends first.
--   RdmaContext/Requests.antt has the work requests that are posted, and the registration of memory.
-- Server/TwoSided.antt: the message loop of handle_two_sided_client in src/server/rdma_main.cpp, over the
--   results of the RDMA calls of each turn; Server/TwoSided/ compares it with a TCP session.
-- EventLoop.antt: src/net/event_loop.cpp. A coroutine is a number; the parameter Tasks says which loop
--   functions each resumption calls. run takes the list of poll's answers, so that it ends when the list
--   does, and a fuel for each batch of ready coroutines, which may go on for ever in the source too, where
--   a coroutine schedules itself: the exits out_of_fuel and waiting tell these cases apart.
--   EventLoop/Frames.antt has the Task objects and says who destroys the frame of a coroutine.
-- Sockets.antt: read_line and write_all of src/net/socket_utils.cpp and write_all of rdma_main.cpp, over
--   the list of results of recv and send.
-- OneSided.antt: fnv1a, slot_key_equals and one_sided_get of src/client/rdma_client.cpp. The
--   network is the parameter Fabric: what a work request delivers, and what it does to the server's memory.
--   Addresses wrap at 2 ^ 64. OneSided/Writer.antt has prepare_slot and one_sided_set.
--   OneSided/Export.antt and OneSided/Counts.antt say what a write and a FETCH_AND_ADD make of the exported
--   table, and OneSided/Writer/Refine.antt compares one_sided_set with a table of keys and values.
--   OneSided/Card.antt makes a Fabric of the work requests of RdmaContext/Requests.antt on a network card,
--   which is the parameter Card, and writes the requests down; OneSided/Bounds.antt says where they go.
-- Client.antt and Client/: the sessions of the clients. Client/Interactive.antt is
--   run_one_sided_interactive and Client/TwoSided.antt two_sided_request_response and run_two_sided of
--   src/client/rdma_client.cpp; Client/Tcp.antt is src/client/main.cpp. Client/Benchmark.antt and the files
--   below it are the two benchmarks of rdma_client.cpp. A worker sees the server through a network of its
--   own, and its random numbers and times are parameters. Client/Benchmark/Statistics.antt has the
--   percentiles, Client/Benchmark/Sampling.antt the Zipf distribution with
--   std::lower_bound as the halving search of the standard library, with as many rounds of fuel as entries, and Client/Benchmark/Csv.antt the
--   CSV file; floating-point arithmetic is a parameter of each. Client/Buffers.antt has the registrations
--   of the one-sided client's buffers.
-- Preload.antt: the pre-loading of the table in main of src/server/rdma_main.cpp. Numbers are printed with
--   twenty digits of fuel, which 64 bits need at most.
-- Descriptors.antt: the functions of src/net/socket_utils.cpp, rdma_main.cpp and rdma_client.cpp that make
--   sockets, and accept_loop of src/server/main.cpp, over the answers of the system and with the
--   descriptors that are open.
-- Handshake.antt: handle_two_sided_client and handle_one_sided_client of rdma_main.cpp from their start to
--   their end, and connect_rdma_session of rdma_client.cpp. Handshake/Region.antt is the QpInfo that the
--   one-sided handler sends: register_mr of rdma_store.cpp, set_exported_region and local_info.
-- Arguments.antt: the command lines. It has std::stoi and std::stoul by their documentation; std::stod is
--   a parameter. Arguments/Client.antt is main of rdma_client.cpp, Arguments/Server.antt main of
--   rdma_main.cpp, and Arguments/Tcp.antt the arguments of the two TCP programs.
-- EndToEnd.antt: the one-sided mode from the two command lines to an answer, with all the parts above in it.
-- Tests.antt and Tests/: runs at concrete inputs.
--
-- Not modelled: addresses, socket options and the attributes of queue pairs (system calls and libibverbs),
-- the bytes of a QpInfo, prompts and log messages, the clocks, the mean and the throughput of the
-- benchmarks, the TCP benchmark, threads of the two-sided server below the level of one call of the store,
-- and races of one-sided writers, which the source rules out by assumption.
pub mod Arguments
pub mod Assoc
pub mod Client
pub mod Descriptors
pub mod EndToEnd
pub mod EventLoop
pub mod Handshake
pub mod KvStore
pub mod OneSided
pub mod Preload
pub mod Prelude
pub mod Protocol
pub mod RdmaContext
pub mod RdmaStore
pub mod Server
pub mod Sockets
pub mod Tests
