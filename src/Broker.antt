-- ===== src/Broker.antt =====
-- The broker package: what a broker is known by, and its parts in the modules below.
pub mod Info
pub mod Store
pub mod Receive
pub mod Request
pub mod Interceptor
pub mod Dial
pub mod Connection
pub mod Lifecycle
mod Examples
