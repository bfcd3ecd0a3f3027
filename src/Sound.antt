-- ===== src/Sound.antt =====
-- Which frames the stack handles without undefined behaviour, and that it handles any number of them.
pub mod Sizes
pub mod Questions
pub mod Segments
pub mod Datagrams
pub mod Frames
pub mod Received
pub mod Loop
pub mod Traffic
pub mod Session
