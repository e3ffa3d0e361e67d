-- ===== src/Embedding.antt =====
-- embedserv/idle_embedding_proxy.py, the proxy that runs an embedding server only while it is used.
pub mod Lifecycle
pub mod Handler
pub mod Slots
mod Examples
