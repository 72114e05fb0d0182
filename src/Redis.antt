-- ===== src/Redis.antt =====
-- src/modules/redis: the client that the application relies on, the typed helpers of
-- redis.service.ts over it, and the key names of redis.constants.ts with the subscriber of
-- redis.module.ts that reads them back.
pub mod Client
pub mod Service
pub mod Keys
