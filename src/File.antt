-- ===== src/File.antt =====
-- fs/: the files of the agent. Modelled are the modes, the arithmetic of offsets and the reads.
pub mod Modes
pub mod Ranges
pub mod Reading
pub mod ReadLoop
pub mod Reads
mod Examples
