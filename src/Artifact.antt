-- ===== src/Artifact.antt =====
-- The package `artifact`: checksums, the manifest's store, paths, metadata and signatures.
pub mod ChecksumStore
pub mod Update
pub mod Checksum
pub mod Json
pub mod Metadata
pub mod Compressor
pub mod Signer
pub mod Scripter
