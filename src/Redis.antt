-- ===== src/Redis.antt =====
-- The package `redis`, and what it uses of the server and of encoding/json.
pub mod Errors
pub mod Server
pub mod Lock
pub mod RateLimit
pub mod Keyspace
pub mod Json
pub mod Cache
pub mod Session
pub mod Client
