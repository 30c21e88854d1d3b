-- ===== src/Fs.antt =====
-- Files on Windows (src/luanode_file_win32.h, src/luanode_file_win32.cpp); those of src/luanode_file_linux.cpp do
-- nothing. Win32 and Boost.Asio are outside of the model.
pub mod File
mod Tests
