-- ===== src/Lib.antt =====
-- OpenTube Engine is a video hosting server in C with an HTTP server of its own. A master process
-- accepts connections in an event loop (src/core_server.c); requests come out of a pool, their bytes
-- are collected in buffers, parsed and answered by src/core_http.c, and pass to worker threads
-- through a queue. The containers that all of this stands on are in src/common_functions.c.
--
-- Files and the code they model:
--   Base       shared names: native numbers, lists indexed by them, 32-bit counters with wrap-around
--   Common     src/common_functions.c: the containers
--     Allocator  the allocator as an interface: its heap is abstract, and its laws say how malloc,
--                realloc and free change the number of blocks held at an address. The laws are those
--                of the C library, also at size 0: realloc frees the block and returns NULL, the
--                address 0, and malloc returns a block of its own (jemalloc as
--                libs/jemalloc/jemalloc.c has it returns NULL there too, which the laws do not
--                cover; no nodes of the program have size 0)
--     Pool       pool_t: pool_create, pool_alloc, pool_free, pool_free_last, pool_destroy
--     FragPool   frag_pool_t: frag_pool_create, frag_pool_alloc, frag_pool_free,
--                frag_pool_free_alt and _frag_try_internal_pool_free
--     Pqueue     pqueue_t: pqueue_create, pqueue_push, pqueue_fetch
--     Buf        buf_t: buf_create, buf_expand, buf_expand_i, buf_resize, buf_free, buf_destroy
--     Paths      gnu_basename
--   Config     src/config_parser.c
--     Cursor     the text from a pointer on: config_jump_to_nonspace, config_quick_validate, the bytes
--                of names and strings
--     Setting    config_setting_t as a tree, config_find_child_by_name, and the errors
--     Parser     config_parse_setting_name, config_parse_string, config_parse_int,
--                config_parse_command, config_parse_childs and config_read; strtoll, strtod and fopen
--                are a parameter (Libc)
--     Lookup     config_lookup
--   Http       src/core_http.c
--     Chars      the character classes of src/common_functions.h
--     Hex        http_hex_to_ascii, the version with tables
--     Args       http_parse__, http_parse_query_string and http_parse_cookies
--     Headers    http_parse_headers; new_keepalive_socket is a parameter, its table a part of the state
--     Uri        http_divide_uri
--     Send       http_append_to_output_buf, http_send, and the part of events_out_data in
--                src/core_server.c that goes on with the vector
--   Server     src/core_server.c
--     Keepalive  keepalive_sockets: new_keepalive_socket, remove_keepalive_socket, and the pass of
--                event_iter over the table; getpeername is a parameter
--     Limits     limit_requests, limit_sim_requests, and the pass of event_iter over the clients
--     Memcache   src/memcache.c: cache_find, cache_store and cache_update; zlib is a parameter
--     Select     src/event_wrapper_select.c: the sockets with their masks, and the sets for select()
--     Sweep      what the loops over these tables share
--     Requests   requests_vector: event_find_request, event_fetch_request, and the release of idle
--                structures in event_iter; what http_prepare fills in is a parameter
--
-- A structure of the program is a record with its fields; an operation is a function from the
-- structure and the heap to the new ones. Counters of type uint wrap around at 2^32. A read beyond
-- an array gives none. Pointers are numbers, and the bytes of a text are a list of numbers.
-- The loops over a table of core_server.c, which may shrink meanwhile, run on the number of
-- elements at their start. All other loops run over a list or count down, but for two on fuel. The
-- loop over the header lines has one more than there are bytes left, since every line takes at
-- least one byte. The parser of the configuration has as much for each file, since each round of its
-- loop and each group takes a byte at least. Its `depth` bounds how deep files include one
-- another, and too_deep is the result beyond.
--
-- Not modelled: failure of the allocator (the program ends), the debugging output, the other
-- operations of the HTTP server and of the event loop, the destruction of the configuration and its
-- accessors, the values of core_config.c, the templates, and the start and end of the cache. The
-- operations on the sockets of the select() loop are taken as single steps, though their lock does
-- not ensure it. Third-party libraries, Windows and operating-system calls are left out; what writev
-- answers is a parameter.
pub mod Base
pub mod Common
pub mod Config
pub mod Http
pub mod Server
