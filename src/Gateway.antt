-- ===== src/Gateway.antt =====
-- The gateway service (internal/gateway): cached point bindings between the platform and devices.
pub mod Floats
pub mod Binding
pub mod Cache
pub mod Downlink
pub mod Uplink
