-- ===== src/Egress.antt =====
-- egress/final_hop_proxy.py: the destination-validating final-hop proxy, one child module for each
-- part of the file.
pub mod Address
pub mod Platform
pub mod Hosts
pub mod Ports
pub mod Framing
pub mod Head
pub mod Body
pub mod Dns
pub mod Network
pub mod Validate
pub mod Socks
pub mod Connect
pub mod Handlers
pub mod Forward
pub mod Server
mod Examples
