-- ===== src/Reader/Header/Frame.antt =====
-- What reading a header leaves alone, and that it ends with the check of the header's checksum.
use mender_artifact.Prelude.{true, ◌≡◌, arith, Bytes, eqb}
use mender_artifact.Prelude.Result.{ok}
use mender_artifact.Artifact.Compressor.{Compressor}
use mender_artifact.Artifact.Checksum.{hex_encode}
use mender_artifact.Tar.{Body}
use mender_artifact.Reader.{Environment, Reader}
use mender_artifact.Reader.Header.{
  bytes_of, read_header_archive, read_augmented_header, header_sum_ok,
}

-- The two readers agree on the manifest and on whether a signature was seen, and this body has
-- this checksum.
pub record Checked (x : Environment) (sum : Bytes) (body : Body) (ar ar' : Reader) : Type 0 where
  pub same_manifest : ar'.manifest ≡ ar.manifest
  pub same_signed : ar'.is_signed ≡ ar.is_signed
  pub checksum : eqb sum (hex_encode (x.sha256 (bytes_of body))) ≡ true

module _ (x : Environment) (sum : Bytes) (comp : Compressor) (body : Body) (ar ar' : Reader) where
  pub read_header_archive-Checked :
      read_header_archive x sum comp body ar ≡ ok ar' → Checked x sum body ar ar'
  unfolding read_header_archive header_sum_ok
  read_header_archive-Checked h = record {
    same_manifest = ground arith;
    same_signed = ground arith;
    checksum = ground arith;
  }

  pub read_augmented_header-Checked :
      read_augmented_header x sum comp body ar ≡ ok ar' → Checked x sum body ar ar'
  unfolding read_augmented_header header_sum_ok
  read_augmented_header-Checked h = record {
    same_manifest = ground arith;
    same_signed = ground arith;
    checksum = ground arith;
  }
