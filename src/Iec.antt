-- ===== src/Iec.antt =====
-- c64iec.ino: the drive that a Commodore sees on the IEC bus.
pub mod Bus
pub mod Drive
pub mod FileName
pub mod Load
pub mod Save
pub mod Machine
pub mod Command
pub mod Probe
pub mod Setup
pub mod Header
pub mod Valid
mod Tests
