-- ===== src/Record.antt =====
-- internal/record/record.go: the result record of one corpus entry, and the ladder of one name.
-- Every field is a uint8 or a uint16 in Go, and a number here; `IsEncodable` (Record.Codec) states
-- the ranges. The constants of each enumeration stand in a child named after it.
pub mod Names
pub mod Status
pub mod Flags
pub mod Resolve
pub mod RrTypes
pub mod Tcp
pub mod Tls
pub mod Delegation
pub mod Terminal
pub mod Canonical
pub mod Defs
pub mod Verdict
pub mod Codec
pub mod RoundTrip
pub mod Agreement
mod Examples
pub use Defs.{Side, Record, zero_side, zero_record}
unfoldable pub use Verdict.{
  serves, www_supported, conclusive_side, conclusive, stall, registration_state,
}
unfoldable pub use Codec.{width, encode, decode}
pub use Codec.{IsEncodable}
