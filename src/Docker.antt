-- ===== src/Docker.antt =====
-- plugins/beiran_interface_docker: the storage of a docker daemon, and its images and layers.
pub mod Storage
pub mod LayerTable
pub mod Peers
pub mod Mappings
pub mod Images
pub mod Ensure
pub mod Archive
pub mod Routes
pub mod Pull
pub mod Interface
pub mod Events
pub mod Samples
mod Tests
