-- ===== src/Datagram.antt =====
-- `LuaNode::Datagram` (src/luanode_datagram_udp.h, src/luanode_datagram_udp.cpp): sockets for datagrams.
-- Boost.Asio is outside of the model.
pub mod Socket
pub mod Setup
pub mod Handlers
mod Tests
