-- ===== src/Tests/Stores.antt =====
-- The theorems on the checksum store, on small manifests.
use mender_artifact.Prelude.{
  Bool, true, false, not, ◌&&◌, [], ◌∷◌, ◌++◌, ◌≡◌, refl, Bytes, codes, eqb, trim_space, trim_left,
  if◌then◌else◌,
}
use mender_artifact.Prelude.Result.{ok, err}
use mender_artifact.Prelude.Dict.{lookup, insert, bytes_eq}
use mender_artifact.Artifact.ChecksumStore.{
  ChecksumStore, exist, checksum_missing, new_checksum_store, add, get, get_and_mark, get_raw,
  files_not_marked, read_raw, read_lines, read_checksums, split_two_spaces, manifest_line,
}
use mender_artifact.Artifact.ChecksumStore.Invariant.{IsValid, render, read_raw-IsValid}
use mender_artifact.Artifact.ChecksumStore.Marks.{
  contains, files_not_marked-get_and_mark, get-add, read_raw_keeps_entries,
}
use mender_artifact.Artifact.ChecksumStore.RoundTrip.{AllWords, unmarked, read_raw-get_raw}

abbrev text : Bytes
text = codes "aa  version" ++ b'\n' ∷ []

abbrev later_text : Bytes
later_text = codes "bb  header.tar" ++ b'\n' ∷ []

-- The store of the first text, with its file marked or not.
abbrev one : Bool → ChecksumStore
one mark = record {
  raw = text;
  sums = (codes "version", codes "aa") ∷ [];
  marked = (codes "version", mark) ∷ [];
}

abbrev two : ChecksumStore
two = record {
  raw = text ++ later_text;
  sums = (codes "version", codes "aa") ∷ (codes "header.tar", codes "bb") ∷ [];
  marked = (codes "version", true) ∷ (codes "header.tar", false) ∷ [];
}

text_read : read_raw text new_checksum_store ≡ ok (one false)
unfolding read_raw read_lines read_checksums trim_space trim_left split_two_spaces add lookup insert
    manifest_line eqb
text_read = refl

later_read : read_raw later_text (one true) ≡ ok two
unfolding read_raw read_lines read_checksums trim_space trim_left split_two_spaces add lookup insert
    manifest_line eqb
later_read = refl

-- A line that names a file twice is refused.
twice_refused : read_raw (text ++ text) new_checksum_store ≡ err exist
unfolding read_raw read_lines read_checksums trim_space trim_left split_two_spaces add lookup insert
    manifest_line eqb
twice_refused = refl

-- A last line without its newline is dropped.
unfinished_dropped : read_raw (text ++ codes "bb  header.tar") new_checksum_store ≡ ok (one false)
unfolding read_raw read_lines read_checksums trim_space trim_left split_two_spaces add lookup insert
    manifest_line eqb
unfinished_dropped = refl

sum_of_version : get (codes "version") (one true) ≡ ok (codes "aa")
unfolding get lookup eqb
sum_of_version = refl

marked_version : get_and_mark (codes "version") (one false) ≡ ok (codes "aa", one true)
unfolding get_and_mark get lookup insert eqb
marked_version = refl

new-IsValid : IsValid new_checksum_store
unfolding render
new-IsValid = record { same_keys = refl; distinct = tt; rendered = refl }

one-IsValid : IsValid (one false)
unfolding render manifest_line
one-IsValid = record { same_keys = refl; distinct = (tt, tt); rendered = refl }

read_raw_keeps_entries_example :
    (get (codes "version") two ≡ ok (codes "aa"))
    × (lookup (codes "version") two.marked ≡ lookup (codes "version") (one true).marked)
read_raw_keeps_entries_example =
    read_raw_keeps_entries later_text (one true) (codes "version") (codes "aa") later_read
      sum_of_version

read_raw-IsValid_example : IsValid (one false)
read_raw-IsValid_example = read_raw-IsValid text new_checksum_store new-IsValid text_read

files_not_marked-get_and_mark_example : contains (codes "version") (files_not_marked (one true)) ≡ (
    contains (codes "version") (files_not_marked (one false))
    && not (eqb (codes "version") (codes "version")))
files_not_marked-get_and_mark_example =
    files_not_marked-get_and_mark (codes "version") (codes "version") (one false) one-IsValid
      marked_version

added : add (codes "version") (codes "aa") new_checksum_store ≡ ok (one false)
unfolding add lookup insert manifest_line
added = refl

get-add_example :
    (get (codes "version") new_checksum_store ≡ err (checksum_missing (codes "version")))
    × (get (codes "version") (one false) ≡ (
        if eqb (codes "version") (codes "version")
        then ok (codes "aa")
        else get (codes "version") new_checksum_store))
get-add_example = get-add (codes "version") (codes "aa") (codes "version") new_checksum_store added

one-AllWords : AllWords (one false).sums
one-AllWords = (
  (
    cc,
    (refl, (refl, (refl, (refl, (refl, (refl, (refl, tt))))))),
    (refl, (refl, (refl, (refl, (refl, (refl, (refl, tt))))))),
  ),
  (cc, (refl, (refl, tt)), (refl, (refl, tt))),
  tt,
)

read_raw-get_raw_example :
    read_raw (get_raw (one false)) new_checksum_store
    ≡ ok (record (one false) { marked = unmarked (one false).sums })
read_raw-get_raw_example = read_raw-get_raw (one false) one-IsValid one-AllWords
