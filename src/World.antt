-- ===== src/World.antt =====
-- The database, the clock and the generators around the program, and actions on them. The tables
-- are those of ent/schema; the client library is not modelled beyond the calls that the source
-- makes: each call of it may fail, and a transaction works on a copy of the tables that nobody
-- else sees before it commits.
pub mod Tables
pub mod Rows
pub mod Action
pub mod Tx
pub mod Keeps
pub mod Inversion
pub mod Reads
