-- ===== src/Proxy.antt =====
-- proxy/src: what the proxy makes of a request, and of the head of a response.
pub mod Error
pub mod Target
pub mod Fields
pub mod Options
pub mod Request
pub mod Response
