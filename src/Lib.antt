-- ===== src/Lib.antt =====
-- The program: the projects of an introduction to operating systems, in C.
--
-- gios-spr-2018-pr1-master has an echo client and server, a file transfer client and server, and the
-- Getfile protocol: a server library and a client library, a queue (steque.c) and a content table
-- (content.c) behind them. gios-spr-2018-pr3-master has a proxy and its cache, which looks files up in
-- a copy of the content table. gios-spr-2018-pr4-master has an RPC service that scales images down.
--
-- The files, by the part of the program that they are about:
--   Steque      gios-spr-2018-pr1-master/mtgf/steque.c: `steque_init` to `steque_destroy` by name, on
--               a memory of nodes (Steque/Memory: `malloc`, reads, writes and `free` of nodes, with
--               undefined behaviour at a bad address). Steque/Rep says when a memory stands for a list.
--               Steque/Copies has cache/steque.c and server/steque.c of gios-spr-2018-pr3-master.
--   Content     gios-spr-2018-pr1-master/gflib/content.c and gios-spr-2018-pr3-master/cache/simplecache.c,
--               which differ in `Limits`: `init` is the text of both `_init` functions, `search` the loop
--               of both lookups. `qsort` is a parameter; `Sorts` is what the C standard says of it.
--               `open` is a parameter: the descriptor for each call and path; and so is whether `malloc`
--               and `realloc` find memory.
--   GfServer    gios-spr-2018-pr1-master/gflib/gfserver.c: `gfs_abort`, `gfs_send`, `gfs_sendheader` on a
--               connection (the context until it is freed, the bytes sent, the closes of the socket), and
--               the round of `gfserver_serve` that reads a request. GfServer/Start has the server object
--               and `gfserver_serve` from its start; GfServer/Main has gflib/gfserver_main.c,
--               mtgf/gfserver_main.c and mtgf/handler.c.
--   GfClient    gios-spr-2018-pr1-master/gflib/gfclient.c: the request object, `parse_response`, the receive
--               loop, and `gfc_perform`, whose part behind the connection is `perform_connected`. It uses the
--               status type and, in its theorems, the headers of GfServer; GfClient/Served has a server at
--               the other end of the connection, and GfClient/Contract what gflib/gfclient.h promises.
--   Sockets     the loop over the results of `getaddrinfo` that all of these programs repeat.
--   Launch      how far a `main` gets, and the tests of its port option.
--   Echo        gios-spr-2018-pr1-master/echo/echoserver.c and echoclient.c.
--   Transfer    gios-spr-2018-pr1-master/transfer/transferserver.c and transferclient.c.
--   Minify      gios-spr-2018-pr4-master/rpc_mt/minifyjpeg_main.c: `load_requests`, `worker_main` as steps of
--               one worker at a time under a schedule, and the loop of `main` that joins the threads.
--               `Moves` is the relation of the steps; Minify/Program puts `main` together; Minify/Written and
--               Minify/Finished follow the files, Minify/Fair and Minify/Ended the turns of the threads. `minify_via_rpc` is a
--               parameter, for which Minify/Remote takes that of Rpc. Minify/Unset has minifyjpeg_main.c,
--               the version outside rpc_mt, which differs in one allocation.
--   Cache       gios-spr-2018-pr3-master/cache: `handle_with_cache` of handle_with_cache.c (Cache/Proxy), a
--               round of `worker` and the options of simplecached.c (Cache/Daemon), its `main` and its signal
--               handler (Cache/Startup), the messages between
--               them (Cache/Message), and the loops that copy and send a file (Cache/Chunks). Cache/System
--               has the threads of both programs as a relation of steps around the queues and the segment
--               that they share, with the failures of `fstat`, `pread` and the queue of replies. It uses `simplecache_get` of Content.
--   Web         gios-spr-2018-pr3-master: the handlers of server/handle_with_file.c (Web/File) and
--               server/handle_with_curl.c (Web/Curl), and `main` of server/webproxy.c (Web/Server) and of
--               cache/webproxy.c (Web/Cached). The library behind gfserver.h is an object file there: a
--               handler is taken as the header that it asks for and the bytes that it sends.
--   Download    gios-spr-2018-pr1-master: gflib/workload.c (Download/Workload; the copy in mtgf is the same
--               text), and gflib/gfclient_download.c and mtgf/gfclient_download.c, which differ in
--               `Variant` (Download/Names), in one option, and in the number of threads.
--   Rpc         gios-spr-2018-pr4-master, from the client's call to the service: rpc_mt/minify_via_rpc.c and `main`
--               of rpc_mt/minifyjpeg_svc.c (Rpc/Call), minifyjpeg_xdr.c (Rpc/Xdr), magickminify.c and
--               magickminify_test.c (Rpc/Image), what minifyjpeg_svc.c and its version in rpc_mt make of a
--               request, with minifyjpeg.c (Rpc/Dispatch), and minifyjpeg_clnt.c, with a call through all
--               of them (Rpc/Remote, Rpc/Failing). Rpc/Service has the boss and the workers of rpc_mt as a relation of
--               steps, and Rpc/Links the parts of `steque_enqueue` between which a worker can pop. The RPC
--               library (`clnt_call`, the primitives of XDR) and ImageMagick are parameters, the latter by whether
--               `magickminify_init` was called; `IsXdr` and
--               `Delivers` are what their documents say.
--   Base, Text  shared helpers: tests and lists on native numbers, and the C functions on strings and
--               numbers that the programs call (`strcmp`, `strsep`, `strtok`, `strtoul`, `atoi`, `%zu`).
--   Tests       runs of the theorems at concrete inputs.
--
-- Environment. A result of `send` is the number of bytes it took or `none` for -1; a list of results of
-- `recv` is a list of the bytes of each call, `none` for -1. Results that a run does not reach are left
-- over; a list that ends early leaves the program waiting. `getaddrinfo` gives a list of addresses or
-- fails. A run that C leaves undefined ends in an outcome of its own (`undefined`, `crash`, `faulted`,
-- `overflow`), so a theorem that a function returns a result also says that the run is defined.
-- `fread` of a partial item is taken to store the bytes that it read.
--
-- Bounds and fuel. `size_t` is 64 bits and `int` 32 bits; counters wrap at those sizes, written out.
-- `search` has 32 rounds: a table has fewer than 2^31 items and each round halves the range.
-- `load_loop` has a round more than the file has bytes, and each round reads a byte or more.
-- `destroy_loop` of Steque has a round for each item. `decimal` and `strtoul` are on 20 digits, which is
-- every 64-bit number. The `int` counter of Steque and the `int` capacity of Content are undefined behind
-- their largest value, so the theorems bound the nodes of a queue by 2^31 - 1 and the lines of a content
-- file by 2^30. A `double` of Web/Curl is rounded to 53 binary digits. `total_bytes` of Transfer is an
-- `int`, and its theorems are about files of fewer than 2^31 bytes.
-- The counters of Download count below 2^31 requests. `rounds` wraps the product of the two `int` around.
-- A schedule of Minify in which each thread has a turn in every round lets the threads return after
-- three rounds for each request and two for each thread (Minify/Fair).
-- In Rpc/Service the links of the queue change in one step and its counter in two; Rpc/Links takes a
-- `steque_pop` as one step.
--
-- Not modelled: text printed to the terminal, the result of `inet_ntop`, when signals come, how
-- `fscanf` splits a file into words, libcurl, ImageMagick and the RPC library beyond what is said of them
-- above, a failure of `pthread_create`, the second and later connections of Transfer, which use a stream
-- that is closed, and the handler of gflib and the server library of gios-spr-2018-pr3-master, which are
-- object files.
pub mod Base
pub mod Cache
pub mod Content
pub mod Download
pub mod Echo
pub mod GfClient
pub mod GfServer
pub mod Launch
pub mod Minify
pub mod Rpc
pub mod Sockets
pub mod Steque
pub mod Tests
pub mod Text
pub mod Transfer
pub mod Web
