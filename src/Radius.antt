-- ===== src/Radius.antt =====
-- pkg/radius: the RADIUS protocol layer.
pub mod Result
pub mod Bytes
pub mod Code
pub mod Attribute
pub mod Auth
pub mod Packet
pub mod Vendor
pub mod Constructors
pub mod Examples
