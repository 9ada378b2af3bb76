-- ===== src/Scripts.antt =====
-- scripts/seed.cpp and scripts/echo_client.cpp: the programs that fill a database and try a server.
pub mod Seed
pub mod Echo
