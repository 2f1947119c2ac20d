-- ===== src/RedisOp.antt =====
-- src/redis_op.c: the operations on Redis, over the interface of hiredis.
pub mod Ends
pub mod Hiredis
pub mod Action
pub mod Keys
pub mod Connect
pub mod Values
pub mod Hash
pub mod Pipeline
