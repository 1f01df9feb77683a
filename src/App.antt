-- ===== src/App.antt =====
-- src/: the configuration of the device, the managers that serve the cloud, and the application about them.
pub mod Config
pub mod Gateway
pub mod Deploy
pub mod StartProject
pub mod Shadow
pub mod Publish
pub mod Services
pub mod Dispatch
pub mod Lifecycle
mod Tests
