-- ===== src/Crypto.antt =====
-- `LuaNode::Crypto` (src/luanode_crypto.h, src/luanode_crypto.cpp). OpenSSL and Boost.Asio are outside of
-- the model.
pub mod Socket
pub mod Handlers
pub mod Hex
pub mod Digest
pub mod Signature
pub mod Cipher
pub mod Context
pub mod Envelope
pub mod Peer
mod Tests
mod Samples
