-- ===== src/Corpus.antt =====
-- internal/corpus: the frozen list of domains, its manifest, and the lists that it is made from.
pub mod Normalize
pub mod Files
pub mod Ranked
pub mod RoundTrip
pub mod Disk
pub mod Import
pub mod Tranco
pub mod Imported
mod Examples
