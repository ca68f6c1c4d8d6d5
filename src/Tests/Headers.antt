-- ===== src/Tests/Headers.antt =====
-- The theorems on the structures of the header, on concrete ones.
use mender_artifact.Prelude.{[], ◌∷◌, none, some, ◌≡◌, ◌≢◌, ◌↔◌, Bytes, codes, All}
use mender_artifact.Prelude.Result.{ok}
use mender_artifact.Prelude.Dict.{Dict}
use mender_artifact.Artifact.Metadata.{
  HeaderInfo, HeaderInfoV3, UpdateType, ArtifactProvides, DependsValue, one, many,
  validate_header_info, validate_header_info_v3, new_type_info_depends, new_type_info_provides,
}
use mender_artifact.Artifact.Metadata.Validate.{
  validate_header_info_iff, validate_header_info_v3_iff,
}
use mender_artifact.Artifact.Metadata.Depends.{
  fields_of, text_fields, new_type_info_depends_iff, new_type_info_provides_iff,
}

abbrev payload : UpdateType
payload = record { type = some (codes "rootfs-image") }

abbrev header : HeaderInfo
header = record {
  artifact_name = codes "a";
  updates = payload ∷ [];
  compatible_devices = codes "d" ∷ [];
}

validate_header_info_iff_example : (validate_header_info header ≡ ok tt) ↔ (
    (header.updates ≢ [])
    × (header.compatible_devices ≢ [])
    × (header.artifact_name ≢ [])
    × All (λ u. u.type ≢ none) header.updates)
validate_header_info_iff_example = validate_header_info_iff header

abbrev header_v3 : HeaderInfoV3
header_v3 = record {
  updates = payload ∷ [];
  artifact_provides = some (record { artifact_name = codes "a"; artifact_group = [] });
  artifact_depends = none;
}

validate_header_info_v3_iff_example : (validate_header_info_v3 header_v3 ≡ ok tt) ↔ (
    (header_v3.updates ≢ [])
    × ((p : ArtifactProvides) × (header_v3.artifact_provides ≡ some p) × (p.artifact_name ≢ [])))
validate_header_info_v3_iff_example = validate_header_info_v3_iff header_v3

abbrev depends : Dict Bytes DependsValue
depends = (codes "k", one (codes "v")) ∷ (codes "l", many (codes "v" ∷ [])) ∷ []

new_type_info_depends_iff_example :
    (new_type_info_depends (fields_of depends) ≡ ok depends)
    ↔ (fields_of depends ≡ fields_of depends)
new_type_info_depends_iff_example = new_type_info_depends_iff (fields_of depends) depends

abbrev provides : Dict Bytes Bytes
provides = (codes "k", codes "v") ∷ []

new_type_info_provides_iff_example :
    (new_type_info_provides (text_fields provides) ≡ ok provides)
    ↔ (text_fields provides ≡ text_fields provides)
new_type_info_provides_iff_example = new_type_info_provides_iff (text_fields provides) provides
