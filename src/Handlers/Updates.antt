-- ===== src/Handlers/Updates.antt =====
-- What an installer says of its payload: the depends, provides and cleared provides of the handlers in
-- handlers/, the original ones, the augmented ones and the two merged.
use mender_artifact.Prelude.{List, [], ◌∷◌, Option, none, some, Bytes}
use mender_artifact.Prelude.Result.{Result, ok, err, ◌>>=◌, or_err}
use mender_artifact.Prelude.Dict.{Dict}
use mender_artifact.Artifact.Json.{Json, Fields, end, field}
use mender_artifact.Artifact.Metadata.{
  TypeInfoV3, DependsValue, ArtifactDepends, ArtifactProvides, new_type_info_depends,
  new_type_info_provides,
}
use mender_artifact.Artifact.Metadata.Depends.{fields_of}
use mender_artifact.Handlers.{
  Installer, HandlerError, rootfs, augmented_rootfs, module_image, augmented_module_image,
  bootstrap, panic, not_decoded, merge_conflict,
}
use mender_artifact.Handlers.Merge.{merge_json_structures}

-- `json.Marshal` and `json.Unmarshal` into an object again, of the two maps, of an object, and of the two
-- structures of the header.
pub record Converter : Type 0 where
  pub generic_depends : Option (Dict Bytes DependsValue) → Option Fields
  pub generic_provides : Option (Dict Bytes Bytes) → Option Fields
  pub generic : Fields → Option Fields
  pub artifact_depends : ArtifactDepends → Option Fields
  pub artifact_provides : ArtifactProvides → Option Fields

abbrev pub Handled {ℓ} : Type ℓ → Type ℓ
Handled A = Result HandlerError A

-- A field of the type information that may be nil, and one that is followed.
abbrev field_of {ℓ} : {A : Type ℓ} → (TypeInfoV3 → Option A) → Option TypeInfoV3 → Option A
field_of get none = none
field_of get (some t) = get t

abbrev follow {ℓ} : {A : Type ℓ} → (TypeInfoV3 → Option A) → Option TypeInfoV3 → Handled (Option A)
follow get none = err panic
follow get (some t) = ok (get t)

-- `GetUpdateOriginalDepends` and `GetUpdateOriginalProvides`. A rootfs does not ask its original.
unfoldable pub get_update_original_depends : Installer → Handled (Option (Dict Bytes DependsValue))
get_update_original_depends (rootfs d) = ok (field_of (λ t. t.artifact_depends) d.type_info_v3)
get_update_original_depends (augmented_rootfs d o) =
    ok (field_of (λ t. t.artifact_depends) d.type_info_v3)
get_update_original_depends (module_image d) = follow (λ t. t.artifact_depends) d.type_info_v3
get_update_original_depends (augmented_module_image d o) = get_update_original_depends o
get_update_original_depends (bootstrap d) = ok none

unfoldable pub get_update_original_provides : Installer → Handled (Option (Dict Bytes Bytes))
get_update_original_provides (rootfs d) = ok (field_of (λ t. t.artifact_provides) d.type_info_v3)
get_update_original_provides (augmented_rootfs d o) =
    ok (field_of (λ t. t.artifact_provides) d.type_info_v3)
get_update_original_provides (module_image d) = follow (λ t. t.artifact_provides) d.type_info_v3
get_update_original_provides (augmented_module_image d o) = get_update_original_provides o
get_update_original_provides (bootstrap d) = ok none

-- `GetUpdateAugmentDepends` and `GetUpdateAugmentProvides`.
unfoldable pub get_update_augment_depends : Installer → Handled (Option (Dict Bytes DependsValue))
get_update_augment_depends (module_image d) = ok (some [])
get_update_augment_depends (augmented_module_image d o) =
    follow (λ t. t.artifact_depends) d.type_info_v3
get_update_augment_depends _ = ok none

unfoldable pub get_update_augment_provides : Installer → Handled (Option (Dict Bytes Bytes))
get_update_augment_provides (module_image d) = ok (some [])
get_update_augment_provides (augmented_module_image d o) =
    follow (λ t. t.artifact_provides) d.type_info_v3
get_update_augment_provides _ = ok none

-- `GetUpdateOriginalClearsProvides`.
unfoldable pub get_update_original_clears_provides : Installer → Option (List Bytes)
get_update_original_clears_provides (rootfs d) =
    field_of (λ t. t.clears_artifact_provides) d.type_info_v3
get_update_original_clears_provides (augmented_rootfs d o) = get_update_original_clears_provides o
get_update_original_clears_provides (module_image d) =
    field_of (λ t. t.clears_artifact_provides) d.type_info_v3
get_update_original_clears_provides (augmented_module_image d o) =
    get_update_original_clears_provides o
get_update_original_clears_provides (bootstrap d) = none

or_original : Option (List Bytes) → Installer → Option (List Bytes)
or_original none o = get_update_original_clears_provides o
or_original (some l) o = some l

-- `GetUpdateClearsProvides`. A rootfs without type information does not ask its original.
unfoldable pub get_update_clears_provides : Installer → Handled (Option (List Bytes))
unfolding or_original
get_update_clears_provides (rootfs d) =
    ok (field_of (λ t. t.clears_artifact_provides) d.type_info_v3)
get_update_clears_provides (augmented_rootfs d o) = elim d.type_info_v3 [
  | none ↦ ok none
  | some t ↦ ok (or_original t.clears_artifact_provides o)
]
get_update_clears_provides (module_image d) =
    ok (field_of (λ t. t.clears_artifact_provides) d.type_info_v3)
get_update_clears_provides (augmented_module_image d o) =
    ok (or_original (field_of (λ t. t.clears_artifact_provides) d.type_info_v3) o)
get_update_clears_provides (bootstrap d) = follow (λ t. t.clears_artifact_provides) d.type_info_v3

-- The entries of an object, which is a Go map.
abbrev pub entries_of : Fields → Dict Bytes Json
entries_of end = []
entries_of (field k v m) = (k, v) ∷ entries_of m

abbrev optional_entries : Option (Dict Bytes DependsValue) → Option (Dict Bytes Json)
optional_entries none = none
optional_entries (some d) = some (entries_of (fields_of d))

module _ (x : Converter) where
  merged_generic : Fields → Fields → Handled Fields
  merged_generic orig augm = elim (merge_json_structures orig augm) [
    | ok merged ↦ ok merged
    | err e ↦ err (merge_conflict [])
  ]

  checked_depends : Fields → Handled (Dict Bytes DependsValue)
  checked_depends m = elim (new_type_info_depends m) [ ok d ↦ ok d | err e ↦ err not_decoded ]

  checked_provides : Fields → Handled (Dict Bytes Bytes)
  checked_provides m = elim (new_type_info_provides m) [ ok d ↦ ok d | err e ↦ err not_decoded ]

  -- `ModuleImage.GetUpdateDepends`, which returns the merged object once it can be read as depends.
  module_depends : Installer → Handled (Option (Dict Bytes Json))
  unfolding get_update_original_depends get_update_augment_depends merged_generic checked_depends
  module_depends i = do
    original ← get_update_original_depends i
    orig ← or_err (x.generic_depends original) not_decoded
    augmented ← get_update_augment_depends i
    augm ← or_err (x.generic_depends augmented) not_decoded
    merged ← merged_generic orig augm
    again ← or_err (x.generic merged) not_decoded
    depends ← checked_depends again
    ok (some (entries_of merged))

  -- `ModuleImage.GetUpdateProvides`.
  module_provides : Installer → Handled (Option (Dict Bytes Bytes))
  unfolding get_update_original_provides get_update_augment_provides merged_generic checked_provides
  module_provides i = do
    original ← get_update_original_provides i
    orig ← or_err (x.generic_provides original) not_decoded
    augmented ← get_update_augment_provides i
    augm ← or_err (x.generic_provides augmented) not_decoded
    merged ← merged_generic orig augm
    again ← or_err (x.generic merged) not_decoded
    provides ← checked_provides again
    ok (some provides)

  -- `GetUpdateDepends`.
  unfoldable pub get_update_depends : Installer → Handled (Option (Dict Bytes Json))
  unfolding module_depends
  get_update_depends (rootfs d) =
      ok (optional_entries (field_of (λ t. t.artifact_depends) d.type_info_v3))
  get_update_depends (augmented_rootfs d o) =
      ok (optional_entries (field_of (λ t. t.artifact_depends) d.type_info_v3))
  get_update_depends (module_image d) = module_depends (module_image d)
  get_update_depends (augmented_module_image d o) = module_depends (augmented_module_image d o)
  get_update_depends (bootstrap d) =
      follow (λ t. t.artifact_depends) d.type_info_v3 >>= λ m. ok (optional_entries m)

  -- `GetUpdateProvides`.
  unfoldable pub get_update_provides : Installer → Handled (Option (Dict Bytes Bytes))
  unfolding module_provides
  get_update_provides (rootfs d) = ok (field_of (λ t. t.artifact_provides) d.type_info_v3)
  get_update_provides (augmented_rootfs d o) =
      ok (field_of (λ t. t.artifact_provides) d.type_info_v3)
  get_update_provides (module_image d) = module_provides (module_image d)
  get_update_provides (augmented_module_image d o) = module_provides (augmented_module_image d o)
  get_update_provides (bootstrap d) = follow (λ t. t.artifact_provides) d.type_info_v3
