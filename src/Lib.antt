-- ===== src/Lib.antt =====
-- mender-artifact: the writing, signing and reading of Mender artifacts, and the structures that
-- they stand on.
--
-- An artifact is a tar archive: a version, a manifest of checksums, an optional signature of the
-- manifest, an optional second manifest, a header archive for the payloads, an optional augmented
-- header, and one data archive for each payload. The reader checks the order of these entries against
-- a grammar, reads the manifest into a checksum store, makes an installer for each payload, lets it
-- read its part of the header, and passes the data files to the client's storers. Every file of the
-- manifest must be met and have the manifest's checksum. The writer makes such an archive of payloads on
-- disk, with a signer or without, and a signature can be put into an archive that is there.
--
-- The files and the code that they model:
--   Prelude and below: bytes, lists, results, association lists, and the functions of Go's standard
--     library that the code uses (strings, path/filepath, strconv, fmt for decimals).
--   Artifact/ChecksumStore: `ChecksumStore` of artifact/checksum.go. A Go map is an association list.
--   Artifact/Checksum: `Checksum` of the same file, a reader and a writer that hash on the way.
--   Artifact/Metadata, Artifact/Json: the structures of artifact/metadata.go and decoded JSON.
--   Artifact/Update, Artifact/Compressor: artifact/update.go, and the choice in artifact/compressor.go.
--   Artifact/Signer: artifact/signer.go, the keys in PEM, RSA and ECDSA, and the marshalling of an ECDSA
--     signature. Its numbers are natural numbers, in Prelude/BigInt.
--   Artifact/Scripter: artifact/scripter.go, the state scripts and the names that they may have.
--   Tar: what archive/tar delivers, entry by entry, with errors in the archive and in a body.
--   Handlers and below: handlers/rootfs_image.go, handlers/module_image.go and
--     handlers/bootstrap_artifact.go as one type of installers; the setters of the files, `ReadHeader`,
--     the merge of meta-data (`mergeJsonStructures`), in Handlers/Compose `ComposeHeader`, and in
--     Handlers/Updates the depends and provides of a payload.
--   Reader and below: areader/reader.go. Reader/Grammar is `verifyParseOrder`, Reader/Path the numbers
--     in paths, Reader/Installers `setInstallers` and `assignUpdateFiles`, Reader/Header the header
--     archive, Reader/Headers the version 3 loop `readHeaderV3` with `handleHeaderReads`,
--     Reader/Artifact version 2 and `ReadArtifactHeaders`, Reader/Data `ReadArtifactData` and
--     `ReadArtifact`, Reader/Merged `MergeArtifactDepends` and its kin. Headers/Run gives the version 3
--     loop as a relation on states.
--   Writer and below: awriter/writer.go. Writer/Sums is `calcDataHash`, Writer/Header `writeTempHeader`,
--     Writer/Payload `writeData`, Writer/Archive the rest up to `WriteArtifact`. What is written is the
--     list of the archive's entries. The key of Writer/Sign is its answers in one run, so that two runs
--     of a randomised key are two keys, and how much the one `Read` of a manifest delivers is a
--     parameter. Writer/Sign is `SignExisting` of awriter/signer.go, from an archive
--     to entries. Their child modules hold the theorems, some of them together with the reader.
--   Cli: cli/write.go from the flags of a write command to the type information (`makeTypeInfo`), and
--     `validateInput`. Cli/Defaults has the theorem on the defaults.
--   Tests: concrete artifacts, and the theorems on them.
--
-- Conventions. A text is its list of bytes. An error is a value; a nil pointer that Go would follow and
-- an index out of range are the error `panic`. An error counts as `io.EOF` where the code asks for its cause:
-- a body may be cut by such an error, and a storer or a compressor may return one. A callback is a function into Bool, and an absent one is
-- `none`. A body is the bytes that it delivers and the kind of error behind them, if any; an archive inside
-- a body is given by the parameter `open_tar`. SHA-256, the JSON decoders, the compressors and the
-- client's storers are parameters too, with no hypotheses on them but where a theorem says so. For the signatures the standard library
-- is the record `Library`, and `LibraryIsSound` states what it documents: a signature that it makes it
-- verifies, and what it encodes it decodes. The writer has the encoders of JSON, the packing of an archive
-- and the files on disk as parameters; a write does not fail.
--
-- Bounds. Decimals are printed with 20 digits of fuel, which hold every 64-bit number. The round trips
-- of paths are for payload numbers below 10000, the range of four digits. `copy` has fuel for the number
-- of reads; one more than the chunks is enough. The bytes of a big number have the number as fuel, which is more than
-- its bytes. All other loops are structural.
--
-- Not modelled: the signing services and devices (clients of other systems), the other commands of the
-- command line, and its tools for disk images.
pub mod Prelude
pub mod Artifact
pub mod Tar
pub mod Handlers
pub mod Reader
pub mod Writer
pub mod Cli
pub mod Tests
