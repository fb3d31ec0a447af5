-- ===== src/Sink.antt =====
-- internal/sink/sink.go: where results land. `Null` discards everything; `Mmap` is a fixed-width
-- file that is mapped into memory and shared with the file, so its bytes are the file's bytes.
pub mod Null
pub mod Defs
pub mod Results
pub mod Laws
pub mod Resume
pub mod Refinement
pub mod Opening
mod Examples
pub use Defs.{Error, Faults, Mmap}
unfoldable pub use Defs.{create, open_file, write, get, len, sync, close}
