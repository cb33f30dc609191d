-- ===== src/Lib.antt =====
-- VeriConnect agent: a model of the agent's core in core/ and the theorems about it.
--
-- The agent keeps a WebSocket to a relay service (core/src/vc_relay.cpp over core/src/vc_ws.cpp),
-- takes requests from it, dispatches them to adapters and sends the answers back. The modules:
--
-- Prelude: byte strings, Boolean tests, lists, bit operations as arithmetic, character classes,
--   and the text searches (string_view::find, scanning loops, iequals).
-- Common: core/include/vc/vc_common.h and core/src/vc_common.cpp. Error, Result and Status are
--   data types; parse_uint stands on std::from_chars written out for 64-bit values.
-- Base64: core/src/vc_base64.cpp. base64_encode is `encode`; the loop of base64_decode is a fold
--   of `decode_step` over its locals, with the 32-bit wrap of the accumulator.
-- Url: core/src/vc_url.cpp. url_parse is cut into the steps of its text.
-- Ini: core/src/vc_ini.cpp. A store is its list of entries; load is a loop over the lines of the
--   text, save writes a block for each section. Reading and writing the file are arguments.
-- Net: core/include/vc/vc_transport.h as a record of operations on an abstract world, with the
--   clock and the random source of core/include/vc/vc_os.h; core/src/vc_scripted_transport.cpp is
--   an instance.
-- Ws: core/src/vc_ws.cpp. Frame has the bytes of frames and parse_frame; Send has send_frame,
--   send, send_ping and send_close; Recv has read_more and recv; EndToEnd joins the two.
--   Upgrade has the opening handshake.
-- Http: core/src/vc_http.cpp. The module itself has the response parser, header lookup and chunked
--   bodies; Exchange has the sends and the reading loop over a transport.
-- Json: core/src/vc_json.cpp. Values, access and the writer, with a type that stands for double: strtod and
--   the library functions that write_number calls are operations of it;
--   Text has string literals, read and written; Parse has the recursive descent parser, which takes
--   the levels that are left to nest and passes itself to its loops as a function.
-- Sha256: core/src/vc_sha256.cpp, with the 32-bit wrap of every sum; HMAC is in the same file.
-- Sas: core/src/vc_sas.cpp, with the wall clock as an argument.
-- Relay: core/src/vc_relay.cpp. The record Host is the dialler, its sockets, the clocks, the log and the
--   callbacks, all on one world; a Listener carries its fields and the world. Request has a
--   request from its body to its response, over the control channel or a rendezvous; Loop has the
--   control channel, renewal and the loop that connects again. Frame is the induction over all calls
--   of a round that the theorems on the loop share. The destructor of a C++ socket is a call of the
--   host's `destroy`, placed where the object's life ends: at ctrl_.reset() and at the end of the
--   scope of a rendezvous socket.
-- Log: core/src/vc_log.cpp. Levels and the configuration; Sanitise has escaping and the masking of
--   secrets.
-- Settings: core/src/vc_settings.cpp over Ini, Relay's and Log's configurations.
-- Adapters: core/src/vc_adapter.cpp. The record Plugins is the shared libraries, impersonation and the
--   log, on the world of Fs; a request is routed to an adapter and run as the user that it names.
-- Fs: core/src/vc_fs.cpp over the record Files, which is std::filesystem and the file streams.
-- FsAdapter: adapters/filesystem/src/fs_commands.cpp and fs_adapter.cpp. Creation and listing are in
--   the module itself, the commands on a file that is there in Existing, the table of commands in
--   Run. Store states what the theorems ask of a disk, with a test for paths that name the same file;
--   Replies says what the text of a reply says.
--
-- Bytes are natural numbers; where a value must be below 256 the theorem says so. Fixed-width
-- casts and shifts keep their wrap (`u8`, `u32`, `u64`). Timeouts are natural numbers of
-- milliseconds, a negative timeout of recv is `none`.
--
-- Loops. The sending loops take the number of bytes left as fuel, which is enough since each round
-- sends at least one byte: the theorems on what is written would fail otherwise. The loop of recv
-- has no bound in the program, because a peer may send control frames for ever; its model takes
-- fuel and answers `none` when it runs out, and the theorems state the fuel that is enough. So do the
-- reading loops of upgrade and exchange, for which more fuel than bytes arrive is enough; the loops
-- over a text that is there take its length. The loops of the relay listener end when the host asks
-- them to stop; each takes fuel for its rounds, and any fuel above the number of times that stop is
-- still asked in vain is enough.
--
-- Not modelled: the platform layers under platform/ and the applications under apps/ (calls of the
-- operating system and of TLS libraries, command lines), the file that the log writes and rotates,
-- and so far the agent of core/src/vc_agent.cpp that joins the parts.
pub mod Adapters
pub mod Base64
pub mod Common
pub mod Fs
pub mod FsAdapter
pub mod Http
pub mod Ini
pub mod Json
pub mod Log
pub mod Net
pub mod Prelude
pub mod Relay
pub mod Sas
pub mod Settings
pub mod Sha256
pub mod Url
pub mod Ws
