-- ===== src/Server.antt =====
-- The package server: routing of client connections to destination connections.
pub mod Session
pub mod Handler
pub mod Dispatcher
mod Runs
