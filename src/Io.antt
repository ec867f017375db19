-- ===== src/Io.antt =====
-- pkg/io: the identifiers of the requests in flight, the table of those that wait for a reply, the
-- sender and the receiver.
pub mod IdAlloc
pub mod Matcher
pub mod Sender
pub mod Receiver
pub mod Examples
pub mod SendExamples
