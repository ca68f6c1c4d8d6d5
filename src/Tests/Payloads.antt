-- ===== src/Tests/Payloads.antt =====
-- The theorems on payloads and on merging meta-data, on concrete ones.
use mender_artifact.Prelude.{List, [], ◌∷◌, some, ◌≡◌, refl, arith, Bytes, codes, eqb}
use mender_artifact.Prelude.Result.{ok}
use mender_artifact.Artifact.Json.{Fields, end, field, number, object, get_field, set_field}
use mender_artifact.Handlers.{DataFile, named, Installer, rootfs, augmented_rootfs, rootfs_v3}
use mender_artifact.Handlers.Files.{
  get_update_files, get_update_augment_files, get_update_all_files, set_update_files,
  set_update_augment_files,
}
use mender_artifact.Handlers.Files.Laws.{
  HasOneFile, get_update_files-set_update_files, get_update_augment_files-set_update_augment_files,
  set_update_files-HasOneFile, set_update_augment_files-HasOneFile,
}
use mender_artifact.Handlers.Merge.{
  json_deep_copy, copy_fields, merge_into, merge_value, merge_json_structures,
}
use mender_artifact.Handlers.Merge.Spec.{Combined, IsMap, merge_json_structures-Combined}

abbrev one_file : List DataFile
one_file = named (codes "f") ∷ []

-- An augmented rootfs image without files, with its own file, and with an augmented one.
abbrev image : Installer
image = augmented_rootfs rootfs_v3 (rootfs rootfs_v3)

abbrev own : Installer
own = augmented_rootfs rootfs_v3 (rootfs (record rootfs_v3 { update = some (named (codes "f")) }))

abbrev augmented : Installer
augmented =
    augmented_rootfs (record rootfs_v3 { update = some (named (codes "f")) }) (rootfs rootfs_v3)

own_set : set_update_files one_file image ≡ ok own
unfolding set_update_files
own_set = refl

augmented_set : set_update_augment_files one_file image ≡ ok augmented
unfolding set_update_augment_files get_update_files
augmented_set = refl

image-HasOneFile : HasOneFile image
unfolding get_update_all_files get_update_files get_update_augment_files
image-HasOneFile = (tt, omega arith)

set_update_augment_files-HasOneFile_example : HasOneFile augmented
set_update_augment_files-HasOneFile_example =
    set_update_augment_files-HasOneFile one_file image augmented image-HasOneFile augmented_set

set_update_files-HasOneFile_example : HasOneFile own
set_update_files-HasOneFile_example =
    set_update_files-HasOneFile one_file image own image-HasOneFile own_set

get_update_files-set_update_files_example :
    (get_update_files own ≡ one_file)
    × (get_update_augment_files own ≡ get_update_augment_files image)
get_update_files-set_update_files_example =
    get_update_files-set_update_files one_file image own tt own_set

get_update_augment_files-set_update_augment_files_example :
    (get_update_augment_files augmented ≡ one_file)
    × (get_update_files augmented ≡ get_update_files image)
get_update_augment_files-set_update_augment_files_example =
    get_update_augment_files-set_update_augment_files one_file image augmented tt augmented_set

-- Meta-data with an object under one key, an override of a value inside it, and the merge.
abbrev nested : Bytes → Fields → Fields
nested n rest = field (codes "k") (object (field (codes "a") (number n) rest)) end

abbrev original : Fields
original = nested (codes "1") (field (codes "b") (number (codes "2")) end)

abbrev merged : Fields
merged = nested (codes "3") (field (codes "b") (number (codes "2")) end)

merged_read : merge_json_structures original (nested (codes "3") end) ≡ ok merged
unfolding merge_json_structures copy_fields merge_into merge_value json_deep_copy get_field
    set_field eqb
merged_read = refl

override-IsMap : IsMap (nested (codes "3") end)
unfolding get_field
override-IsMap = (refl, tt)

merge_json_structures-Combined_example :
    Combined
      (get_field (codes "k") original)
      (get_field (codes "k") (nested (codes "3") end))
      (get_field (codes "k") merged)
merge_json_structures-Combined_example =
    merge_json_structures-Combined original (nested (codes "3") end) merged (codes "k")
      override-IsMap merged_read
