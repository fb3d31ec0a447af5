-- ===== src/Resolve.antt =====
-- internal/resolve: a DNS client that reports what it was answered. `github.com/miekg/dns` is a
-- parameter: Messages has the fields of its messages that the code reads.
pub mod Messages
pub mod Answers
pub mod Merge
pub mod Pool
pub mod Client
pub mod Lookup
pub mod Rotation
pub mod Retry
pub mod Typed
pub mod Ready
pub mod Sockets
pub mod Exchange
pub mod Demux
pub mod Wildcard
pub mod Setup
pub mod Sized
pub mod Examples
