-- ===== src/Lib.antt =====
-- Verification of the network programs of the repository.
--
-- Assignment_3 is a TFTP server. `Tftp` models Assignment_3/lib.c, lib.h, config.h and server.c:
--   Opcode       opcode_t, error_code_t and the sizes of config.h
--   Packet       the packet structs, *_to_buffer, make_*_packet, parse_*
--   File         read_block, write_data_to_file, make_data_packet
--   Session      tftp_recvfrom, and what a handler exchanges with the network
--   Request      the calls of the system and the packets that refuse a request
--   Rrq, Wrq     rrq_handler and wrq_handler
--   Server       the loop of main
--   Sockets      init
--   Tests        the theorems at concrete inputs
--
-- Assignment_2 is a chat server with its client (SBCP). `Sbcp` models the messages of
-- Assignment_2/config.h, common_lib.c, server_lib.c and client_lib.c, and the server:
--   Message      sbcp_msg_t, get_msg_type, make_msg_*, parse_msg_*
--   Clients      the linked list of connections: append_node, remove_node, get_usernames, msg_broadcast
--   Router       msg_router
--   Service      the loop of Assignment_2/server.c around msg_router, over a list of rounds
--   Sockets      server_init, server_lookup_connect
--   Client       main of Assignment_2/client.c behind the connection, update_idle_time, parse_msg_ack
--   Tests        the theorems at concrete inputs
-- A Router holds the variables of msg_router, and the list of what it has written and closed. The
-- server's int client_count - 1 is compared as `max_clients < client_count`, for a max_clients that is
-- not negative.
--
-- Assignment_1 is an echo service. `Echo` models Assignment_1/client.c from the lookup of the host to the
-- end of the input, and of Assignment_1/server.c the set-up and the loop of the child:
--   Defs         the two loops
--   Lines        one line and its reply
--   Sockets      server_lookup_connect, main of client.c, the set-up of server.c
--   Session      the client and the child over a whole input
--   Tests        the theorems at concrete inputs
-- Writes and reads have 99 bytes.
--
-- Assignment_4 is a caching HTTP proxy. `Proxy` models Assignment_4/lib.c, lib.h, config.h and proxy.c:
--   Links        doubly linked lists on a heap, for both kinds of nodes
--   Http         http_info_t, parse_request, parse_response
--   Heap         cache_node_t, fd_node_t, and the state of the proxy
--   Cache        cache_queue_t with new_cache_queue, cache_enqueue, is_cache_hit, free_cache_queue
--   Fds          fd_list_t with fd_list_append, fd_list_remove, count_client, get_max_fd,
--                fd_select
--   Transfer     cache_recv, cache_send
--   Handlers     listen_fd_handler, client_read_handler and the other three
--   Service      main of Assignment_4/proxy.c
--   Sockets      server_lookup_connect, server_init
--   Tests        the theorems at concrete inputs
-- A World has the two kinds of nodes by their addresses, the next address that calloc gives, and the list
-- of what has been sent and closed; to follow a pointer to no node is `fault`. What accept, recv, send,
-- connect and select give is an argument. A walk along the cache has fuel for one node more than it has
-- slots, a traversal of the descriptors the number of steps that it is given; both are `fail` without it.
--
-- `HttpClient` models Assignment_4/client.c:
--   Defs         main up to the request, and the loop over the body
--   Receive      get_filename, the first call of recv, and the whole of main
--   Url, Request the URL cut into host and path
--   Filename     get_filename
--   Body, Blank,
--   Answer       what is written to the file
--   Visit        the whole run, and its request as the proxy parses it
--   Tests        the theorems at concrete inputs
-- What malloc returns, and what stands behind its arrays, is an argument.
--
-- `Socket` has the loops that the four programs use to connect or to bind a socket: the results of socket,
-- setsockopt, connect and bind for each address are arguments, and the calls made are a list.
--
-- Memory holds arrays of bytes, memcpy, strcpy and byte order; Common the shared names.
--
-- Conventions. A byte is a number below 256 by its use; a size_t and a uint16_t wrap by % 2 ^ 64 and %
-- 2 ^ 16 where the code can overflow. An access outside an array is the outcome `fault`, an error code
-- is `fail`. The int that overflows in new_cache_queue is a `fault` too, and so is the test of the
-- descriptor -1 that a failed accept leaves in the list of the chat server. A handler is a function of
-- its request and of the list of events that its calls of select and recvfrom meet, one for each round
-- of its loop, so that the loops are recursions on that list and need no fuel; a run that has used up
-- its events ends in `waiting`. `char` is signed and the host is little-endian, as on x86-64. A file
-- is the list of its bytes.
--
-- The digits of a count have fuel 10, which is enough below 10 ^ 10, and the array for them has five
-- bytes.
--
-- Not modelled: errors of recv in the HTTP client; the loop around accept and fork in Assignment_1/server.c;
-- the tests in Assignment_4/lib.c; accept_client and connect_client, which are one call of accept; address
-- conversion, fork and signals, and output on the terminal. Whether the sockets and files can be opened is a
-- parameter of the handlers (`Host`).
pub mod Common
pub mod Memory
pub mod Socket
pub mod Tftp
pub mod Echo
pub mod Proxy
pub mod HttpClient
pub mod Sbcp
