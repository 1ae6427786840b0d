-- ===== src/Network.antt =====
-- The guest's network: the shared queues (uhyve.c and uhyve-net.h).
pub mod Queue
pub mod Mac
