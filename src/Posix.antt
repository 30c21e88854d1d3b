-- ===== src/Posix.antt =====
-- The streams of POSIX systems (src/luanode_posix_stream.h, src/luanode_posix_stream.cpp) and their terminals
-- (src/detail/posix/tty_stream.h, src/detail/posix/tty_stream.cpp). Boost.Asio and the calls of the terminal
-- are outside of the model.
pub mod Stream
pub mod Terminal
pub mod TtyStream
mod Tests
