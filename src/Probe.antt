-- ===== src/Probe.antt =====
-- internal/probe/probe.go: classifies one domain, the ladder DNS, TCP, TLS, HTTP for the apex and for
-- www, and the canonical direction between them.
pub mod Transport
pub mod Classify
pub mod Walk
pub mod Ladder
pub mod Direction
pub mod Rounds
pub mod Chain
pub mod Invariant
pub mod Encodable
pub mod Resolved
pub mod Dial
pub mod Client
pub mod Examples
