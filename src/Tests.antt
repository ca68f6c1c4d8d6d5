-- ===== src/Tests.antt =====
-- Tests and examples: the program's functions and the theorems on concrete inputs.
mod Samples
mod ReaderExamples
mod Reading
mod Paths
mod Stores
mod Headers
mod Payloads
mod VersionTwo
mod Signing
mod Resigning
mod Writing
mod Scripts
mod Merging
mod Commands
