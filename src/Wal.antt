-- ===== src/Wal.antt =====
-- internal/wal/wal.go: segment names, the directory of segments, the writer and the replay.
pub mod Name
pub mod Disk
pub mod Entry
pub mod Segments
pub mod Writer
pub mod Open
pub mod Scan
pub mod Replay
pub mod Log
pub mod Reader
