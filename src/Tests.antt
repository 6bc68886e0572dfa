-- ===== src/Tests.antt =====
-- The theorems at concrete inputs, and runs of the definitions. The inputs are those of the tests in
-- ext/hyper_ruby/src and in test/, where these have one.
mod LineCodec
mod LineReads
mod Framing
mod FramerRuns
mod Proxy
mod ProxyRuns
mod Delivery
mod Work
mod Http
mod Connections
mod Queues
mod Worker
mod Config
mod Fill
mod Server
mod Gauge
mod Delivered
mod HttpTask
mod Message
