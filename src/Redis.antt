-- ===== src/Redis.antt =====
-- src/data/redis: the wire protocol of Redis and the slots of a cluster.
pub mod Resp3
pub mod Crc16
