-- ===== src/Recorder.antt =====
-- internal/recorder/coordinator.go: the FFmpeg recording processes.
pub mod Filename
pub mod Decimal
pub mod Source
pub mod Command
pub mod Mapping
pub mod Registry
pub mod Stop
pub mod Reconnect
mod Examples
