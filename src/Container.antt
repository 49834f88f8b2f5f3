-- ===== src/Container.antt =====
-- plugins/beiran_package_container: images and layers of containers, and how they are fetched.
pub mod Model
pub mod Table
pub mod Store
pub mod Reset
pub mod Fetch
pub mod ListTable
pub mod Rows
pub mod Tags
pub mod Digests
pub mod Tarball
mod Tests
pub mod Chain
pub mod Registry
pub mod Manifest
pub mod Layers
pub mod Deleted
