-- ===== src/Network.antt =====
-- src/Network.
pub mod Buffer
pub mod Sockets
