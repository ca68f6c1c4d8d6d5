-- ===== src/Tests/Merging.antt =====
-- The theorems on merged depends and provides, on one payload.
use mender_artifact.Prelude.{[], ◌∷◌, Option, none, some, ◌≡◌, ◌↔◌, ◌⊎◌, refl, Bytes, codes, eqb}
use mender_artifact.Prelude.Dict.{Dict, lookup, insert, bytes_eq}
use mender_artifact.Prelude.Result.{ok}
use mender_artifact.Artifact.Json.{Json, Fields, end, field}
use mender_artifact.Artifact.Metadata.{
  HeaderInfoer, HeaderInfoV3, ArtifactProvides, ArtifactDepends, v3, TypeInfoV3, DependsValue, one,
  get_artifact_provides, get_artifact_depends,
}
use mender_artifact.Artifact.Metadata.Depends.{text_fields, fields_of}
use mender_artifact.Handlers.{rootfs}
use mender_artifact.Handlers.Updates.{
  Converter, entries_of, get_update_provides, get_update_depends,
}
use mender_artifact.Reader.{Reader, new_reader}
use mender_artifact.Reader.Merged.{
  add_payloads, add_entries, merge_artifact_provides, merge_artifact_depends,
}
use mender_artifact.Reader.Merged.Union.{
  Says, merge_artifact_provides-union, merge_artifact_depends-union,
}

abbrev depends_fields : Option (Dict Bytes DependsValue) → Option Fields
depends_fields none = some end
depends_fields (some d) = some (fields_of d)

abbrev provides_fields : Option (Dict Bytes Bytes) → Option Fields
provides_fields none = some end
provides_fields (some d) = some (text_fields d)

abbrev converter : Converter
converter = record {
  generic_depends = depends_fields;
  generic_provides = provides_fields;
  generic = λ m. some m;
  artifact_depends = λ d. some end;
  artifact_provides = λ p. some (field (codes "artifact_name") (Json.text p.artifact_name) end);
}

abbrev type_info : TypeInfoV3
type_info = record {
  type = some (codes "rootfs-image");
  artifact_depends = some ((codes "version", one (codes "0")) ∷ []);
  artifact_provides = some ((codes "version", codes "1") ∷ []);
  clears_artifact_provides = none;
}

abbrev header_info : HeaderInfoV3
header_info = record {
  updates = record { type = some (codes "rootfs-image") } ∷ [];
  artifact_provides = some (record { artifact_name = codes "release"; artifact_group = [] });
  artifact_depends =
      some (record {
        artifact_name = [];
        compatible_devices = codes "board" ∷ [];
        artifact_group = [];
      });
}

abbrev reader : Reader
reader = record new_reader {
  h_info = some (v3 header_info);
  installers =
      (
        0,
        rootfs (record {
          version = 3;
          update = none;
          type_info_v3 = some type_info;
          meta_data = none;
        }),
      )
      ∷ [];
}

abbrev provides : Dict Bytes Bytes
provides = (codes "artifact_name", codes "release") ∷ (codes "version", codes "1") ∷ []

abbrev depends : Dict Bytes Json
depends = (codes "version", Json.text (codes "0")) ∷ []

provided : merge_artifact_provides converter reader ≡ ok (some provides)
unfolding merge_artifact_provides get_artifact_provides add_payloads add_entries get_update_provides
    lookup insert eqb
provided = refl

needed : merge_artifact_depends converter reader ≡ ok (some depends)
unfolding merge_artifact_depends get_artifact_depends add_payloads add_entries get_update_depends
    lookup insert eqb
needed = refl

merge_artifact_provides-union_example :
    (hi : HeaderInfoer) × (p : ArtifactProvides) × (base : Fields) × (reader.h_info ≡ some hi)
    × (get_artifact_provides hi ≡ some p)
    × (converter.artifact_provides p ≡ some base)
    × ((k v : Bytes)
        → (lookup k provides ≡ some v) ↔ (
            (lookup k (entries_of base) ≡ some (Json.text v))
            ⊎ Says (get_update_provides converter) k v reader.installers))
merge_artifact_provides-union_example =
    merge_artifact_provides-union converter reader provides provided

merge_artifact_depends-union_example :
    (hi : HeaderInfoer) × (d : ArtifactDepends) × (base : Fields) × (reader.h_info ≡ some hi)
    × (get_artifact_depends hi ≡ some d)
    × (converter.artifact_depends d ≡ some base)
    × ((k : Bytes) (v : Json)
        → (lookup k depends ≡ some v) ↔ (
            (lookup k (entries_of base) ≡ some v)
            ⊎ Says (get_update_depends converter) k v reader.installers))
merge_artifact_depends-union_example = merge_artifact_depends-union converter reader depends needed
