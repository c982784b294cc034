-- ===== src/Lib.antt =====
-- Verification of ezgrpc2, a gRPC server library in C over nghttp2. The library polls sockets,
-- hands the bytes to nghttp2, and turns the callbacks that nghttp2 makes into events for the
-- user, who answers with lists of messages. What follows models the callbacks of
-- src/internal_nghttp2_callbacks.c with the state that they keep, the table of sessions and the
-- loop that polls it, what a user calls, and the thread pool in which a user may run the
-- requests.
--
-- The files and the code that they model:
--
--   Wire.antt: ezgrpc2_message_new of src/ezgrpc2_message.c, and the five bytes before each
--     message.
--   Stream.antt: struct ezgrpc2_stream of src/core.h and stream_new of src/internal_helpers.c.
--   Send.antt: data_source_read_callback2, by which nghttp2 reads the queued messages of a
--     stream.
--   Parse.antt: parse_grpc_message.
--   Event.antt and Events.antt: src/ezgrpc2_event.h, the session uuid, and
--     src/ezgrpc2_events.c, the queue of events in arrays of 64.
--   Paths.antt: ezgrpc2_server_register_path and ezgrpc2_server_unregister_path of
--     src/ezgrpc2_server.c, and the search of the table in on_header_callback.
--   Session.antt: struct ezgrpc2_session, as far as the callbacks use it, and the calls of
--     nghttp2 that they make.
--   Header.antt, Headers.antt and Status.antt: on_header_callback, on_frame_recv_headers,
--     on_frame_recv_settings, and src/ezgrpc2_grpc_status.c.
--   Data.antt: on_data_chunk_recv_callback and on_frame_recv_data.
--   Lifetime.antt: on_begin_headers_callback, on_stream_close_callback, on_frame_recv_callback,
--     and all callbacks together.
--   Prelude.antt: what the other files share, with lemmas on lists and text.
--   Pool.antt: the pollable thread pool of src/ezgrpc2_pthpool.c, with any interleaving of its
--     workers.
--   Server.antt: session_add, session_create, session_free, session_find and session_events of
--     src/internal_helpers.c. Server/Poll.antt: ezgrpc2_server_poll of src/ezgrpc2_server.c.
--   Api.antt: ezgrpc2_server_session_stream_send, ezgrpc2_server_session_stream_end and
--     ezgrpc2_server_session_end of src/ezgrpc2_session.c.
--   LinkedList.antt: the doubly linked list of src/ezgrpc2_list.c, with its nodes in a store.
--     The other files use sequences for lists.
--   LogPool.antt: src/thpool.c, the thread pool of the logger.
--   Settings.antt: src/ezgrpc2_server_settings.c and src/ezgrpc2_http2_settings.c.
--   Setup.antt: ezgrpc2_server_new, ezgrpc2_server_free, ezgrpc2_server_get_all_sessions_info
--     and ezgrpc2_server_log of src/ezgrpc2_server.c.
--   Service.antt: the interface that a program uses while it handles events, and that the calls
--     of Api.antt and Events.antt fill.
--   SingleThreaded.antt: examples/single_threaded.c, over that interface.
--   MultiThreaded.antt: examples/multi_threaded.c, over that interface and the pool of
--     Pool.antt.
--   Messages.antt: src/ezgrpc2_messages.c, which the build leaves out.
--   Arena.antt: src/ezgrpc2_arena_event.c and src/ezgrpc2_arena_message.c.
--   SocketIo.antt: ngsend_callback and ngrecv_callback of src/internal_nghttp2_callbacks.c.
--   Dump.antt: ezdump of src/internal_helpers.c.
--
-- A stream has an address, and a session holds its streams with their addresses in the order of
-- its list, so that the pointer that nghttp2 keeps for a stream can be told from another stream
-- of the same id. A byte is a number; sums of type uint32_t and size_t are reduced where they
-- can wrap, and the 64-bit sums of lengths of buffers in memory cannot. Undefined behaviour and
-- failed assertions are values: aborted, bad, failed, fault, fails, frees_member, invalid_free
-- and, for the examples, none.
--
-- Loops are on fuel only where they are not structural: the loop of data_source_read_callback2
-- has two rounds a message and two more, that of parse_grpc_message one more than there are
-- bytes, and reading events until NULL one more than there are arrays. The theorems on them
-- show that the fuel is enough. The loops that ask nghttp2 whether it wants to write spin while
-- the socket takes nothing, which a theorem shows; they end where the socket takes bytes again
-- after at most a bounded number of sends that it blocks, which is a hypothesis (Patient of
-- Server/Serve.antt), by a measure that the fuel is above. No more is assumed of the callbacks
-- that nghttp2 makes there than that those that return keep the uuid of the session and leave
-- well formed events (Keeps); only the programs of the examples, whose calls are made to send,
-- assume that none of these fails an assertion (Works).
--
-- What nghttp2 answers (the user data of a stream, the result of nghttp2_submit_headers), what
-- the socket functions answer, what malloc gives, and the time are parameters. The calls of a
-- callback of the multi threaded example are one step of a worker, and the values that it reads
-- of the counter pp are a parameter, since the other workers change it meanwhile. Not modelled
-- are the dates and the texts of logs, the ring buffer that is not built, and the copies of
-- other projects (src/wepoll.c and src/tests/unity).
mod Prelude
pub mod Wire
pub mod Stream
pub mod Send
pub mod Parse
pub mod Dump
pub mod Event
pub mod Events
pub mod Paths
pub mod Session
pub mod Header
pub mod Status
pub mod Headers
pub mod Lifetime
pub mod Data
pub mod Pool
pub mod Server
pub mod Api
pub mod LinkedList
pub mod LogPool
pub mod Settings
pub mod Setup
pub mod Arena
pub mod Messages
pub mod Service
pub mod MultiThreaded
pub mod SingleThreaded
pub mod SocketIo
