-- ===== src/Std.antt =====
-- What the client uses of Go's standard library, as documented: encoding/binary, encoding/hex,
-- strconv, time and context.
pub mod Buffers
pub mod Hex
pub mod Decimal
pub mod Time
pub mod Context
