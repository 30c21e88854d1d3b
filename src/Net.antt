-- ===== src/Net.antt =====
-- The TCP classes: src/luanode_net.cpp.
pub mod Socket
pub mod Setup
pub mod Handlers
pub mod Acceptor
