-- ===== src/Server.antt =====
-- pkg/server: the listener for CoA-Requests and Disconnect-Requests.
pub mod Handler
pub mod Examples
