-- ===== src/Lib.antt =====
-- geminon: a server and a client for the Gemini protocol, in C.
--
-- The program is a library (gemini.h) and two command lines on top of it. A server (server.c) reads a
-- request line, parses the URL of it (url.c) and gives the request to its handlers in turn; the
-- handler for files resolves the path of the URL below a root directory (fs.c); what a handler has to
-- say goes out as a status line and a body (request.c). A client (client.c) sends a URL and reads a
-- response (response.c). geminon.c and gurl.c are the command lines.
--
-- Which file models what:
-- Base: lists measured by native numbers, Boolean tests, results (Base/Run: a value, `fault` for a
--   read or a write out of bounds, `no_fuel`), C strings (Base/Bytes), arrays with strlen, strrchr,
--   strncpy and strcat (Base/Arrays), and rows of transition tables (Base/Rows).
-- Url: url.c. `new_url`, `parse_url_into` and `parse_url` are the functions gemini_new_url,
--   gemini_parse_url_into and gemini_parse_url; `advance`, `visit` and `finish` are a round of the
--   loop, its switch, and what follows the loop. Url/Table is fsm.url.c. A struct gemini_url holds
--   offsets into its buffer for the pointers, and the buffer up to the pointer `fill`.
--   Url/Grammar says which strings are URLs, without the machine.
-- Fs: fs.c. `parse_path` is s_parse_path and `resolve` is gemini_fs_resolve, with
--   `append_dir` and `go_up` for the cases of its switch. Fs/Table is fsm.fs.c. Both arrays have their
--   real sizes, and size_t wraps around. Fs/Root has `fs_path` for gemini_fs_path, with `malloc` as a
--   parameter, and Fs/Open has `fs_open` for gemini_fs_open, with the system calls as a parameter.
--   Fs/Normal is the reference that `resolve` is compared with, on the components of a path.
-- Tls and System: what the program asks of an SSL object and of the operating system, parameters with
--   the documented behaviour of the calls as named hypotheses.
-- Request: request.c. `request_respond` and `request_write` are gemini_request_respond and
--   gemini_request_write; Request/Stream has `request_stream`, and Request/Close the record of a
--   request and `request_close`. A World keeps the sockets that have been closed.
-- Server: server.c. `handle` and `handle_fn` are gemini_handle and gemini_handle_fn, on a store of the
--   cells that `malloc` gave. Server/Handlers has s_handler_fs, s_handler_authn and s_handler_vhosts,
--   Server/Register their registration, Server/Dispatch the loop over the handlers (`walk`; `route` is
--   its abstract view), Server/Serve the functions s_readto and gemini_serve, and Server/Shutdown
--   gemini_server_close. A connection that `accept` returns is an Arrival; an accept, a session and its
--   certificate are given by the list of these.
-- Init: init.c, over what OpenSSL keeps.
-- Setup: gemini_bind and gemini_tls (server.c), gemini_client_tls and gemini_client_close (client.c).
-- Response: response.c, with the variable that may be read before it is set as a flag.
-- Client: gemini_client_request (client.c). A Net keeps the sockets that were opened and closed.
-- Cli: the command lines. Of geminon.c, Cli/Handlers has `echo_handler`; Cli/Cgi has `cgi_handler`, with
--   what follows `fork` once as `parent` and once as `child`; and Cli/Configure has `configure`, where
--   `apply` is its switch and `prepare` all up to the call of gemini_bind. Cli/Geminon is
--   main of geminon.c, over the connections that come. Cli/Gurl is gurl.c, and Cli/Fuzz is fuzz-url.c.
--   What getopt_long, getenv and read return is a parameter.
-- Tests: runs, and the theorems at concrete values.
--
-- Bounds and fuel: `resolve` has a round for each byte of the path and one more, and every call of
-- `parse_path` but the last consumes a byte; `request_write` has a round for each byte, and a write
-- takes one byte at least. An `int` state and an `int` port are numbers, as neither leaves its range;
-- `unsigned short port`, `unsigned int len` and `size_t left` are reduced modulo their sizes.
--
-- `readto`, `response_read` and `drain` have a round for each byte that there is room for or that is
-- left, and one more; `walk` and `close_loop` one for each cell of the store and one more. The reads of
-- a file and of a peer are bounded by a parameter, which the theorems ask to exceed their length.
--
-- The sizes that the program gives to `SSL_read` and `SSL_write` as an int are taken as they are, which
-- is exact below 2 ^ 31. The memory that `configure` gets is a parameter (`Room` in Cli/Configure), and
-- copies by `strdup` are taken to succeed.
--
-- Not modelled: the generators of the tables (url.pl, fs.pl), the tests (t), and messages to stderr.
-- Memory that is freed is noted in `gemini_server_close` alone.
pub mod Base
pub mod Cli
pub mod Client
pub mod Fs
pub mod Init
pub mod Request
pub mod Response
pub mod Server
pub mod Setup
pub mod System
pub mod Tls
pub mod Url
mod Tests
