-- ===== src/Syslog.antt =====
-- ext/hyper_ruby/src/syslog.rs and its modules: the syslog listeners.
pub mod Proxy
pub mod Framing
pub mod ProxyReader
pub mod Config
pub mod Counters
pub mod Delivery
pub mod Sockets
pub mod Listener
pub mod Connection
pub mod Datagrams
pub mod Gauge
pub mod Message
pub mod Runtime
