-- ===== src/Destination.antt =====
-- The package client/destination: the parsers that find the target of a user's connection.
pub mod Text
pub mod Parser
pub mod PlainGnet
pub mod Hosts
pub mod HttpProxy
pub mod Https
pub mod Socks5
pub mod Shadowsocks
pub mod Http
pub mod Modes
pub mod Chunked
mod Runs
