-- ===== src/Examples.antt =====
-- One concrete world, a small site with one role and one configuration file, and the tests and
-- examples that run in it.
pub mod Tally
pub mod Site
pub mod Machines
pub mod Offers
pub mod Disks
pub mod Texts
pub mod Ceph
pub mod Launches
pub mod Servers
pub mod Ids
pub mod Queue
pub mod Waits
pub mod Posts
pub mod Configs
pub mod DiskRuns
pub mod Json
pub mod ExecutorRuns
pub mod Bootstrap
pub mod Survives
