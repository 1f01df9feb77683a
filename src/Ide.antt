-- ===== src/Ide.antt =====
-- src/ide_connection_manager.c: the lock that one IDE holds on the device.
pub mod Manager
mod Tests
