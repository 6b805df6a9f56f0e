-- ===== src/Client.antt =====
-- The package client: users' connections and their routes to the gforward server.
pub mod Dns
pub mod Session
pub mod Forwarder
pub mod Handlers
mod Runs
