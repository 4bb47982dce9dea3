-- ===== src/Example.antt =====
-- A small file system, on which the theorems of the operations are run.
mod Fixture
mod Directories
mod Database
mod Operations
mod Paths
mod Moves
mod Lives
mod Uploads
mod Garbage
mod Users
mod Sessions
mod Keys
mod Cleaning
