-- ===== src/Network.antt =====
-- network.rs: what an application may send to the outside: errors of requests, and the children
-- for rate limits (Limits), destinations (Hosts) and the parts of a request (Requests).
mod Errors
pub mod Limits
pub mod Hosts
pub mod Requests
unfoldable pub use Errors.*
