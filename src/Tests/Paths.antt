-- ===== src/Tests/Paths.antt =====
-- The theorems on the grammar and on paths, on concrete names.
use mender_artifact.Prelude.{
  true, List, [], ◌∷◌, ◌++◌, none, some, ◌≡◌, ◌≢◌, ◌↔◌, ◌⊎◌, refl, arith, Bytes, codes, eqb, length,
  ◌==◌,
}
use mender_artifact.Prelude.Result.{ok}
use mender_artifact.Prelude.Decimal.{pos}
use mender_artifact.Prelude.FilePath.{join}
use mender_artifact.Prelude.FilePath.Plain.{IsPlain}
use mender_artifact.Artifact.Update.{update_path, update_header_path, update_data_path}
use mender_artifact.Reader.Grammar.{artifact_v3_parse_grammar, verify_parse_order}
use mender_artifact.Reader.Grammar.Sound.{
  Member, last, verify_parse_order_sound, verify_parse_order-none_iff, verify_parse_order-full_iff,
}
use mender_artifact.Reader.Path.{
  get_update_no_from_header_path, get_update_no_from_data_path, get_update_no_from_manifest_path,
}
use mender_artifact.Reader.Path.RoundTrip.{
  get_update_no_from_manifest_path-update_path, get_update_no_from_header_path-update_header_path,
  get_update_no_from_data_path-update_data_path,
}

abbrev order : List Bytes
order = codes "manifest" ∷ codes "header.tar.gz" ∷ []

order_read : verify_parse_order order ≡ some (codes "header.tar.gz", true)
unfolding verify_parse_order artifact_v3_parse_grammar eqb
order_read = refl

verify_parse_order_sound_example :
    (path rest : List Bytes) × Member path artifact_v3_parse_grammar
    × (path ≡ order ++ rest)
    × (last order ≡ some (codes "header.tar.gz"))
    × (true ≡ (length rest == 0))
verify_parse_order_sound_example =
    verify_parse_order_sound order (codes "header.tar.gz") true order_read

verify_parse_order-full_iff_example :
    (verify_parse_order order ≡ some (codes "header.tar.gz", true))
    ↔ (Member order artifact_v3_parse_grammar × (last order ≡ some (codes "header.tar.gz")))
verify_parse_order-full_iff_example = verify_parse_order-full_iff order (codes "header.tar.gz")

verify_parse_order-none_iff_example : (verify_parse_order (codes "header.tar" ∷ []) ≡ none) ↔ (
    (codes "header.tar" ∷ [] ≡ [])
    ⊎ ((path rest : List Bytes)
        → Member path artifact_v3_parse_grammar
        → path ≢ (codes "header.tar" ∷ []) ++ rest))
verify_parse_order-none_iff_example = verify_parse_order-none_iff (codes "header.tar" ∷ [])

f_IsPlain : IsPlain (codes "f")
f_IsPlain = (cc, (omega arith, tt), ground arith, ground arith)

manifest_path_example :
    get_update_no_from_manifest_path (join (update_path 12) (codes "f")) ≡ ok (pos 12, codes "f")
manifest_path_example =
    get_update_no_from_manifest_path-update_path 12 (codes "f") (omega arith) f_IsPlain

header_path_example :
    get_update_no_from_header_path (join (update_header_path 12) (codes "f")) ≡ ok (pos 12)
header_path_example =
    get_update_no_from_header_path-update_header_path 12 (codes "f") (omega arith) f_IsPlain

data_path_example :
    get_update_no_from_data_path (codes ".gz") (update_data_path 12 ++ codes ".gz") ≡ ok (pos 12)
data_path_example =
    get_update_no_from_data_path-update_data_path 12 (codes ".gz") (omega arith)
      (omega arith, (omega arith, (omega arith, tt)))
