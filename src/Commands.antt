-- ===== src/Commands.antt =====
-- The programs under cmd/.
pub mod Cli
pub mod Performed
pub mod Uploads
pub mod Peers
pub mod Start
pub mod Shutdown
