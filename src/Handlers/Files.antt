-- ===== src/Handlers/Files.antt =====
-- The files of a payload: `GetUpdateFiles`, `SetUpdateFiles` and their augmented counterparts, of
-- handlers/rootfs_image.go, handlers/module_image.go and handlers/bootstrap_artifact.go.
pub mod Laws
use mender_artifact.Prelude.{
  ℕ, Bool, ◌&&◌, not, List, [], ◌∷◌, ◌++◌, Option, none, some, Bytes, length, ltb, ◌==◌,
  if◌then◌else◌,
}
use mender_artifact.Prelude.Result.{Result, ok, err, ◌>>=◌}
use mender_artifact.Handlers.{
  DataFile, Rootfs, ModuleImage, BootstrapArtifact, Installer, rootfs, augmented_rootfs,
  module_image, augmented_module_image, bootstrap, HandlerError, not_exactly_one_file,
  both_augmented_and_not, augmented_on_original,
}

abbrev pub Files : Type 0
Files = List DataFile

-- A list of one pointer, or the empty list if it is nil.
abbrev pub file_list : Option DataFile → Files
file_list none = []
file_list (some f) = f ∷ []

-- `GetUpdateFiles`.
unfoldable pub get_update_files : Installer → Files
get_update_files (rootfs d) = file_list d.update
get_update_files (augmented_rootfs d o) = get_update_files o
get_update_files (module_image d) = d.files
get_update_files (augmented_module_image d o) = get_update_files o
get_update_files (bootstrap d) = []

-- `GetUpdateAugmentFiles`.
unfoldable pub get_update_augment_files : Installer → Files
get_update_augment_files (rootfs d) = []
get_update_augment_files (augmented_rootfs d o) = file_list d.update
get_update_augment_files (module_image d) = []
get_update_augment_files (augmented_module_image d o) = d.files
get_update_augment_files (bootstrap d) = []

-- `GetUpdateAllFiles`.
unfoldable pub get_update_all_files : Installer → Files
get_update_all_files i = get_update_files i ++ get_update_augment_files i

-- The pointer that a list of at most one file sets.
at_most_one : Files → Result HandlerError (Option DataFile)
at_most_one [] = ok none
at_most_one (f ∷ []) = ok (some f)
at_most_one (f ∷ g ∷ fs) = err not_exactly_one_file

-- `SetUpdateFiles`.
unfoldable pub set_update_files : Files → Installer → Result HandlerError Installer
unfolding at_most_one
set_update_files fs (rootfs d) = at_most_one fs >>= λ u. ok (rootfs (record d { update = u }))
set_update_files fs (augmented_rootfs d o) =
    let set = set_update_files fs o in
    if ltb 0 (length fs) && ltb 0 (length (file_list d.update))
    then err both_augmented_and_not
    else (set >>= λ o'. ok (augmented_rootfs d o'))
set_update_files fs (module_image d) = ok (module_image (record d { files = fs }))
set_update_files fs (augmented_module_image d o) =
    set_update_files fs o >>= λ o'. ok (augmented_module_image d o')
set_update_files fs (bootstrap d) = ok (bootstrap (record d { files = fs }))

-- The end of `SetUpdateAugmentFiles` of an augmented rootfs image.
set_augmented_rootfs : Files → Rootfs → Installer → Result HandlerError Installer
set_augmented_rootfs [] d o = ok (augmented_rootfs (record d { update = none }) o)
set_augmented_rootfs (f ∷ []) d o =
    if ltb 0 (length (get_update_files o))
    then err both_augmented_and_not
    else ok (augmented_rootfs (record d { update = some f }) o)
set_augmented_rootfs (f ∷ g ∷ fs) d o = err not_exactly_one_file

-- `SetUpdateAugmentFiles`.
unfoldable pub set_update_augment_files : Files → Installer → Result HandlerError Installer
unfolding set_augmented_rootfs
set_update_augment_files fs (rootfs d) =
    if ltb 0 (length fs) then err augmented_on_original else ok (rootfs d)
set_update_augment_files fs (augmented_rootfs d o) = set_augmented_rootfs fs d o
set_update_augment_files fs (module_image d) =
    if ltb 0 (length fs) then err augmented_on_original else ok (module_image d)
set_update_augment_files fs (augmented_module_image d o) =
    ok (augmented_module_image (record d { files = fs }) o)
set_update_augment_files fs (bootstrap d) = ok (bootstrap d)
