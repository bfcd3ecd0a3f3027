-- ===== src/Layout.antt =====
-- The packed structs in memory: what is written as bytes is read back as the same fields.
pub mod Behind
pub mod Inside
pub mod Links
pub mod Packets
pub mod Transports
