-- ===== src/Proxy.antt =====
-- src/proxy.rs and its modules: the routing endpoints, and the children behind them.
pub mod Child
pub mod Slots
pub mod Refusal
pub mod Endpoint
pub mod Head
pub mod Body
pub mod Relay
pub mod Answer
pub mod Interleaving
pub mod Pool
pub mod Reply
mod Tests
