-- ===== src/Lib.antt =====
-- A verification library of mycppwebfw, a web framework in C++ on top of asio: an HTTP parser, connections with
-- a buffer pool, a router over a trie of routes, chains of middlewares, and utilities.
--
-- A server accepts connections. A connection reads into a buffer of the pool and gives the bytes to the parser,
-- which keeps its state between reads; a complete request is answered and written. The router keeps one trie for
-- each method. A match gives a handler that runs the router's and the route's middlewares, sorted by priority, as
-- a chain around the route's own handler; every middleware may call the next one, change the request and the
-- response, or throw.
--
-- Files and the code that they are about:
--   Base, Base/*             shared types, lists, texts, association lists, decimal numbers, integers, sorting
--   Http/Parser              mycppwebfw/src/http/parser.cpp: `step` is the switch, `parse` the loop
--   Http/Request             mycppwebfw/src/http/request.cpp
--   Http/Response            mycppwebfw/src/http/response.cpp
--   Middleware/Script        what a handler does, as the tree of its calls of `next`
--   Middleware/Chain         mycppwebfw/src/middleware/middleware_chain.cpp
--   Middleware/Handlers      auth.cpp, error_handler.cpp and request_id.cpp there
--   Middleware/Session       session.cpp there
--   Middleware/Context       include/mycppwebfw/context/context.h, of the older tree
--   Middleware/Older         src/middleware and src/utils/middleware_utils.cpp, the older tree
--   Utils/Stores             mycppwebfw/src/utils: API keys, tokens, sessions, CORS origins
--   Utils/RequestId          request_id_generator.cpp there
--   Utils/Renderer           error_renderer.cpp there
--   Utils/Files              file_server.cpp there
--   Utils/Convert            std::stoi and std::stoul
--   Utils/Config             config.cpp there
--   Utils/Logging            logger.cpp there, and mycppwebfw/src/logging
--   Utils/TokenBucket        token_bucket.cpp there
--   Utils/Compressor         compressor.cpp there
--   Routing/Trie             mycppwebfw/src/routing/router.cpp: nodes, segments, the loops of add_route
--   Routing/Matcher          mycppwebfw/src/routing/route_matcher.cpp
--   Routing/Router           mycppwebfw/src/routing/router.cpp: Router, RouteGroup, match_route
--   Routing/Inspector        mycppwebfw/devtools/route_inspector.cpp
--   Routing/Parameter        mycppwebfw/include/mycppwebfw/routing/parameter_parser.h
--   Core/BufferPool          mycppwebfw/include/mycppwebfw/core/buffer_pool.h
--   Core/Connection          mycppwebfw/src/core/connection.tpp and connection_manager.h: one connection
--   Core/Server              mycppwebfw/src/core/server.cpp, signal_handler.cpp and connection_manager.h
--   Core/ThreadPool          mycppwebfw/src/core/thread_pool.cpp and thread_pool.h
-- The modules below these hold proofs and tests.
--
-- State and effects. A text is the list of its bytes. Unordered maps are association lists, whose order is one
-- that the map may have. Trie nodes are numbers into a store, as the code writes through shared pointers. A
-- handler's state is an Exchange: the request, the response, the thread's request id, the identifiers drawn and
-- the log. Undefined behaviour is `none`, or `fault` in the parser. std::sort is a stable sort, one of the orders
-- that it may give. A connection is the state that its asio handlers change; each handler is one step, and the
-- completions and timers are the events of a list in any order. The server holds every connection that it
-- accepted and the pool that they share; an event is an accept, an event of one of them, or a signal. Buffers are
-- numbers, so that a buffer in two places is seen. A configuration is changed field by field, so an exception
-- leaves the fields that were written before it. The thread pool's regions under the mutex are
-- steps in any order.
--
-- Arguments that stand for what is outside: std::regex_match with the errors of a pattern, the file system, the
-- random draws of the identifiers, the environment, the JSON library, zlib, the arithmetic of doubles, and the
-- texts that a log prints for times and latencies. A char is unsigned, as the implementation may choose.
--
-- Bounds. An int has 32 bits, and the parser's version numbers fault beyond them; size_t has 64 bits, a port 16
-- and zlib's avail_in 32. Loops are recursive on the lists they read; a chain's calls of `next`, the cookie
-- loop and the traversal of a trie run on fuel: the number of the middlewares, the length of the header and
-- the number of nodes, which a path down a trie is shorter than, as every child is allocated after its parent.
-- The loop over zlib's output has fuel above the number of calls that zlib still needs.
--
-- Not modelled: binding the server's address and its output on the console; the rate limiter and the logger of
-- the older tree, which do not match the classes that they call, and the headers that only hold such a member;
-- conversions of parameters to float and double; moving a thread pool, and tasks that throw; the examples, the
-- benchmarks and the copy of a token library.
pub mod Base
pub mod Http
pub mod Middleware
pub mod Utils
pub mod Routing
pub mod Core
