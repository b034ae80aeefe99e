-- ===== src/Bplist.antt =====
-- src/bplist.c: reading and writing binary property lists.
pub mod Word
pub mod Node
pub mod Utf16
pub mod Scalar
pub mod Parse
pub mod Write
pub mod Serialize
