-- ===== src/Goodnight.antt =====
-- rs/crates/goodnight/src/lib.rs: the secret buffer and the signal primitives.
-- A mapping is the list of its `cap` bytes. The kernel (mmap, mlock, kill, the page size) is a
-- parameter.
pub mod Buffer
pub mod Process
pub mod Limits
