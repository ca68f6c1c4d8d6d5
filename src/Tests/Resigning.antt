-- ===== src/Tests/Resigning.antt =====
-- The theorems on `SignExisting`, on the sample archives.
use mender_artifact.Prelude.{
  length, true, false, ◌&&◌, not, List, [], ◌∷◌, Option, some, ◌≡◌, refl, sym, ap, Bytes, codes,
  eqb, eqb_iff, if◌then◌else◌, trim_space, trim_left,
}
use mender_artifact.Prelude.Result.{ok, err, ok_injective}
use mender_artifact.Prelude.Dict.{lookup, insert}
use mender_artifact.Artifact.ChecksumStore.{
  ChecksumStore, get_raw, read_raw, read_checksums, add, manifest_line, read_lines,
  split_two_spaces,
}
use mender_artifact.Tar.{Entry, Tar, entry}
use mender_artifact.Reader.Headers.{read_v3_entries}
use mender_artifact.Reader.Headers.Mark.{mark_signed}
use mender_artifact.Writer.{archive}
use mender_artifact.Writer.Sign.{
  sign_manifest_and_output_signature, sign_entries, sign_existing, already_existing_signature,
  manifest_not_found,
}
use mender_artifact.Writer.Sign.Signed.{read_v3_entries-sign_existing}
use mender_artifact.Writer.Sign.Resign.{
  IsComplete, has_entry, resigned, sign_existing-resigned, sign_existing_twice,
}
use mender_artifact.Tests.Samples.{
  environment, unsigned_entries, signed_entries, data_entries, reader, store, version_3,
  version_reader, file, manifest_text,
}
use mender_artifact.Tests.ReaderExamples.{unsigned_read}

-- The key's signature is the message itself.
abbrev sign : Bytes → Option Bytes
sign m = some m

abbrev written : List Entry
written =
    file (codes "manifest") manifest_text
    ∷ file (codes "manifest.sig") manifest_text
    ∷ file (codes "header.tar") (codes "hh")
    ∷ file (codes "data/0000.tar") (codes "ddd")
    ∷ []

signs : sign_existing sign length false unsigned_entries ≡ ok written
unfolding sign_existing sign_entries sign_manifest_and_output_signature eqb
signs = refl

refuses : sign_existing sign length false signed_entries ≡ err already_existing_signature
unfolding sign_existing sign_entries sign_manifest_and_output_signature eqb
refuses = refl

abbrev header_entries : Tar
header_entries = entry (file (codes "header.tar") (codes "hh")) data_entries

canonical :
    (c : ChecksumStore)
    → read_raw manifest_text version_reader.manifest ≡ ok c
    → get_raw c ≡ manifest_text
unfolding read_raw read_checksums trim_space add lookup insert manifest_line read_lines
    split_two_spaces trim_left eqb
canonical c h = sym (ap get_raw (ok_injective h))

accepted : (message sig : Bytes) → sign message ≡ some sig → eqb message sig ≡ true
accepted message sig h = (eqb_iff message sig).1 (cc (h))

read_v3_entries-sign_existing_example :
    read_v3_entries (environment false) (codes "v") (archive written) [] version_reader
    ≡ ok (mark_signed (reader false false (store true true false) version_3), data_entries)
unfolding eqb
read_v3_entries-sign_existing_example =
    read_v3_entries-sign_existing sign length false (environment false) (codes "v")
      (λ message sig. eqb message sig) refl accepted (file (codes "manifest") manifest_text)
      header_entries data_entries manifest_text version_reader
      (reader false false (store true true false) version_3) written refl canonical (refl, refl, tt)
      unsigned_read signs

signed_entries-IsComplete : IsComplete signed_entries
signed_entries-IsComplete = ((_, refl), ((_, refl), ((_, refl), ((_, refl), tt))))

sign_existing-resigned_example : sign_existing sign length true signed_entries ≡ (
    if not true && has_entry (codes "manifest.sig") signed_entries
    then err already_existing_signature
    else if has_entry (codes "manifest") signed_entries
    then ok (resigned (λ m. m) signed_entries)
    else err manifest_not_found)
sign_existing-resigned_example =
    sign_existing-resigned (λ m. m) sign length (λ m. refl) (λ m. refl) true signed_entries
      signed_entries-IsComplete

unsigned_entries-IsComplete : IsComplete unsigned_entries
unsigned_entries-IsComplete = ((_, refl), ((_, refl), ((_, refl), tt)))

-- The second key answers with one byte more.
sign_existing_twice_example :
    sign_existing (λ m. some (b'!' ∷ m)) length true (archive written)
    ≡ sign_existing (λ m. some (b'!' ∷ m)) length true unsigned_entries
sign_existing_twice_example =
    sign_existing_twice (λ m. m) (λ m. b'!' ∷ m) sign (λ m. some (b'!' ∷ m)) length length
      (λ m. refl) (λ m. refl) (λ m. refl) (λ m. refl) false unsigned_entries written
      unsigned_entries-IsComplete signs
