-- ===== src/Lib.antt =====
-- A verification library for LuaNode, an event-driven runtime for Lua on Boost.Asio (src/, in C++).
--
-- The parts of the program that are modelled, and how they meet:
--   * the program (src/luanode.cpp): its command line and environment, the status that it ends with, and what
--     it does with an error of Lua code (with src/lua_vm.cpp and src/lua_runtime.h);
--   * the console output (src/detail/windows/output_tty.cpp, its state in windows_tty.h): the bytes that Lua
--     writes go through a UTF-8 decoder, a parser of terminal escape sequences and a converter of
--     line ends, and become calls on the console;
--   * the console input (src/detail/windows/input_tty.cpp): the records of the keys become bytes for Lua;
--   * the TCP socket (src/luanode_net.cpp, src/luanode_net.h): Lua calls its methods, these start
--     operations of Asio, and the completion handlers call back into Lua, which may call methods again;
--   * the crypto socket (src/luanode_crypto.cpp, src/luanode_crypto.h), in the same way, on top of a TCP
--     socket; and the digests, signatures and ciphers of the same file, each an object with a context of
--     OpenSSL;
--   * the socket for datagrams (src/luanode_datagram_udp.cpp, src/luanode_datagram_udp.h), in the same way;
--   * the stream of POSIX systems (src/luanode_posix_stream.cpp, src/luanode_posix_stream.h), in the same way, and
--     their terminals (src/detail/posix/tty_stream.h, src/detail/posix/tty_stream.cpp);
--   * the acceptor (src/luanode_net_acceptor.cpp, src/luanode_net_acceptor.h), in the same way;
--   * name lookup (src/luanode_dns.cpp, src/luanode_dns.h), in the same way;
--   * files on Windows (src/luanode_file_win32.h, src/luanode_file_win32.cpp), in the same way;
--   * the clock (src/luanode_hrtime.cpp), whose 64-bit times are values of Lua;
--   * the timer (src/luanode_timer.cpp, src/luanode_timer.h), in the same way;
--   * the binding of the HTTP parser (src/luanode_http_parser.cpp, src/luanode_http_parser.h), between the
--     parser of deps/http-parser and the callbacks in Lua;
--   * the translation of error codes to Lua values (src/luanode.cpp), which these use.
--
-- The files:
--   Base: names of the libraries, Boolean tests, lists over the native numbers, and integers.
--   Lua: values, error codes, what a method returns.
--   Base/Text: texts as lists of bytes.
--   Program/Arguments: `ParseArgs`, `collectargs`, `runargs` and `process.argv`. Program/Environment: `process.env`.
--   Program/Chunks: `report`, `traceback`, `docall`, and the code that the command line and LUA_INIT name.
--   Program/Errors: `FatalError`, `ReportError`, `OnError`, `dostring`, `call` and `Tick`. The interpreter is a
--     parameter; the stack of Lua is a part of the state, and how deep errors may nest is fuel, of which one
--     round is enough (Program/Errors/Nesting). Program/Exit: `_exit`, the loop, the signals, the end of `Load`
--     with its emission of "exit", and `main`.
--   Tty/Utf8: the decoder at the head of `ProcessMessage`; Utf8/Encode: the encoding it is held against.
--   Tty/Ansi: the escape parser and the printing of a character, one function for each state.
--   Tty/Message: the loop of `ProcessMessage`. It makes no use of the results of the console's calls, so
--     the model collects the calls in their order; Tty/Console carries them out.
--   Tty/Window: `uv_tty_update_virtual_window`, `uv_tty_make_real_coord`, the region of `uv_tty_clear`.
--   Tty/Style: the attribute words of `tty_SetStyle`.
--   Tty/Device: the Win32 console, a parameter: each of its calls is a function of the console's state, with
--     a result or an error code. Tty/Console: the operations that call it.
--   Net/Socket, Net/Handlers: the methods and the completion handlers. Asio is a parameter; an operation in
--     flight is an element of a list, and a turn of the event loop completes one of them with any result, or
--     is a call of a method. What Lua does in a callback is a list of method calls and of returned values.
--   Net/Setup: construction, options and addresses, on Linux; the counter of the sockets.
--   Net/Acceptor: the accepts in flight, and what answers them. What a handler leaves on the Lua stack, where the
--     next one looks for its callback, is a part of the state; of other objects it is what they leave there.
--   Base/Pick, Base/Loop: one element of a list and the others; an event loop over any state.
--   Input/Keys: the sequences of the function keys. Input/Reader: `ReadConsoleHandler`, the loop on fuel; so much
--     is enough as there are records and bytes, each byte counted as often as its key is repeated.
--   Input/Handler: all of `ReadConsoleHandler`, with the call of Lua, and the batches that are posted for it.
--     Input/Modes: the modes of the console.
--   Input/Thread: the thread that reads the console, step by step, and the methods that start and stop it. Steps
--     of the threads and calls of Lua come in any order.
--   Datagram/Socket, Datagram/Handlers: the methods and the completion handlers, as of the TCP socket.
--   Datagram/Setup: construction, options and addresses.
--   Dns/Resolver: the method, the handler and the table of an endpoint.
--   Posix/Stream: the methods and the completion handlers. Posix/Terminal: the modes of a terminal.
--     Posix/TtyStream: its construction, its other methods and its completion handler.
--   Fs/File: the methods and the completion handler of a file on Windows, and the array that its reads share.
--   Clock: the readings of `process.hrtime`, and what Lua does with them.
--   Crypto/Socket, Crypto/Handlers: the methods and the completion handlers of the crypto socket, as above.
--     What a handler leaves on the Lua stack, for the next one to stumble on, is a part of the state.
--   Crypto/Peer: the table that describes the certificate of the peer.
--   Crypto/Hex: bytes as hexadecimal text.
--   Crypto/Digest, Crypto/Signature, Crypto/Context, Crypto/Cipher, Crypto/Envelope: `Hash` and `Hmac`;
--     `Signer`, `Verifier` and `VerifyPeer`; `SecureContext`; `Cipher` and `Decipher`; `Open` and `Seal`.
--     OpenSSL is a parameter, a record of its calls; the objects of it that are alive are counted.
--   Timer: the methods and the handler; a wait in flight is the value that its registry reference stands for.
--   Http: the callbacks of the HTTP parser and its methods. The parser is a parameter: a run of it is a tree of
--     notices, each with what the parser does for every result of the callback.
--   The modules below these hold the theorems, named for what they prove, and Tests the concrete inputs.
--
-- Numbers: a machine integer is a natural number with its wrap-around written out (`% 2 ^ 16` of an
-- argument, `% 2 ^ 32` of a codepoint and of the `int` of a status, `% 2 ^ 64` of a counter). The
-- retry loops of the console calls recurse on a number of attempts; on a console that keeps its
-- size one attempt is enough (Tty/Console/Retry). The loop over the console input is on fuel, and
-- Input/Reader/Typed shows that some fuel, and any more, is enough. All other loops are structural.
--
-- Not modelled: standard streams, processes and logging, which are calls of the operating system;
-- the tables of constants and the registration of the classes; the counters of objects but the one
-- of TCP sockets; the initialisation of OpenSSL; in the models of the sockets and the timer, Lua
-- code that raises an error in a callback; but for the acceptor and the crypto socket, what the
-- handlers of other objects leave on the Lua stack; a timer with a negative delay; `console.error`
-- raising an error of its own. The libraries under deps/ are copies of other projects.
pub mod Base
pub mod Lua
pub mod Program
pub mod Tty
pub mod Net
pub mod Dns
pub mod Crypto
pub mod Datagram
pub mod Input
pub mod Posix
pub mod Fs
pub mod Clock
pub mod Timer
pub mod Http
