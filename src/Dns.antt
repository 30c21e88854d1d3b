-- ===== src/Dns.antt =====
-- Name lookup (src/luanode_dns.h, src/luanode_dns.cpp).
pub mod Resolver
mod Tests
