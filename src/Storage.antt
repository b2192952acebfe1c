-- ===== src/Storage.antt =====
-- The gas coin store: src/storage. `Double` is the arithmetic of Lua, `Store` the keys of one
-- sponsor in Redis, `Scripts` the Lua scripts and `Redis` the methods of `RedisStorage`.
pub mod Double
pub mod Store
pub mod Formats
pub mod Pick
pub mod Invariant
pub mod Reserved
pub mod Scripts
pub mod Redis
pub mod Flow
pub mod Url
pub mod Connect
pub mod Interface
