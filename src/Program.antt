-- ===== src/Program.antt =====
-- The program itself (src/luanode.cpp): its arguments and its environment.
pub mod Arguments
pub mod Environment
pub mod Errors
pub mod Chunks
pub mod Exit
mod Tests
