-- ===== src/Text.antt =====
-- Text as the list of its code points: the decimal form of a number, and the comma separated
-- fields of a coin (src/storage/redis/mod.rs writes and reads them, as do the Lua scripts).
mod Decimal
mod Fields
unfoldable pub use Decimal.*
unfoldable pub use Fields.*
