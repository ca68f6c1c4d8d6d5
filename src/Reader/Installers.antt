-- ===== src/Reader/Installers.antt =====
-- The payloads' installers in areader/reader.go: `RegisterHandler`, `setInstallers` and
-- `makeInstallersForUnknownTypes`, and `assignUpdateFiles` with the lists that it builds.
use mender_artifact.Prelude.{
  ℕ, suc, Bool, not, ◌&&◌, List, [], ◌∷◌, Option, none, some, Bytes, codes, eqb, has_prefix, length,
  ltb, ◌==◌, if◌then◌else◌,
}
use mender_artifact.Prelude.Result.{Result, ok, err, ◌>>=◌}
use mender_artifact.Prelude.Decimal.{ℤ, pos, negsuc}
use mender_artifact.Prelude.Dict.{Dict, lookup, insert, bytes_eq, nat_eq}
use mender_artifact.Artifact.Metadata.{UpdateType}
use mender_artifact.Handlers.{
  DataFile, named, Installer, rootfs, augmented_rootfs, module_image, augmented_module_image,
  bootstrap, HandlerError, wrong_original, rootfs_image, new_rootfs_installer, new_module_image,
  new_bootstrap_artifact, new_augmented_rootfs, new_augmented_module_image, empty_module,
  get_version, get_update_type,
}
use mender_artifact.Handlers.Files.{set_update_files, set_update_augment_files}
use mender_artifact.Reader.{
  Environment, Reader, Read, lift, panic, empty_payload_type, unknown_handler, augmented_below_v3,
  augmented_empty_payload, file_of_no_payload, of_path, of_handler,
}
use mender_artifact.Reader.Path.{get_update_no_from_manifest_path}

pub data RegisterError : Type 0 where
  nil_update_type already_there : RegisterError

-- `RegisterHandler` on the map of handlers, for a handler that is not nil.
unfoldable pub register_handler :
    Installer → Dict Bytes Installer → Result RegisterError (Dict Bytes Installer)
register_handler handler handlers = elim (get_update_type handler) [
  | none ↦ err nil_update_type
  | some type ↦ elim (lookup type handlers) [
    | some old ↦ err already_there
    | none ↦ ok (insert type handler handlers)
  ]
]

-- `NewInstance`: the version and the type stay, the rest is empty.
unfoldable pub new_instance : Installer → Installer
new_instance (rootfs d) =
    rootfs (record { version = d.version; update = none; type_info_v3 = none; meta_data = none })
new_instance (augmented_rootfs d o) =
    rootfs (record { version = d.version; update = none; type_info_v3 = none; meta_data = none })
new_instance (module_image d) = module_image (empty_module d.version d.update_type)
new_instance (augmented_module_image d o) = module_image (empty_module d.version d.update_type)
new_instance (bootstrap d) =
    bootstrap (record { version = d.version; files = []; type_info_v3 = none })

-- `Rootfs.NewAugmentedInstance`; a nil original is followed, and so is its nil type.
augmented_rootfs_instance : ℕ → Option Installer → Result HandlerError Installer
augmented_rootfs_instance version none = err HandlerError.panic
augmented_rootfs_instance version (some orig) =
    if ltb (get_version orig) 3 then err wrong_original else elim (get_update_type orig) [
      | none ↦ err HandlerError.panic
      | some type ↦
          if eqb type rootfs_image
          then ok (
              augmented_rootfs
                (record { version = version; update = none; type_info_v3 = none; meta_data = none })
                orig)
          else err wrong_original
    ]

augmented_module_instance : ℕ → Bytes → Option Installer → Installer
augmented_module_instance version type none = module_image (empty_module version type)
augmented_module_instance version type (some orig) =
    augmented_module_image (empty_module version type) orig

-- `NewAugmentedInstance`, on the installer that the map has under the number or on nil. That of a
-- bootstrap artifact returns nil, which a later call follows.
unfoldable pub new_augmented_instance : Installer → Option Installer → Result HandlerError Installer
unfolding augmented_rootfs_instance augmented_module_instance
new_augmented_instance (rootfs d) orig = augmented_rootfs_instance d.version orig
new_augmented_instance (augmented_rootfs d o) orig = augmented_rootfs_instance d.version orig
new_augmented_instance (module_image d) orig =
    ok (augmented_module_instance d.version d.update_type orig)
new_augmented_instance (augmented_module_image d o) orig =
    ok (augmented_module_instance d.version d.update_type orig)
new_augmented_instance (bootstrap d) orig = err HandlerError.panic

-- `makeInstallersForUnknownTypes`: the installer for the number, `old` the one that is there.
unfoldable pub make_installer_for_unknown_type :
    ℕ → Option Bytes → Bool → Option Installer → Read Installer
make_installer_for_unknown_type version type augmented old =
    if ltb version 3 && augmented then err augmented_below_v3 else elim type [
      | none ↦ if augmented then err augmented_empty_payload else ok new_bootstrap_artifact
      | some t ↦
          if eqb t rootfs_image
          then ok (if augmented then new_augmented_rootfs old else new_rootfs_installer)
          else ok (if augmented then new_augmented_module_image old t else new_module_image t)
    ]

module _ (x : Environment) where
  -- The installer of a payload with this type, for a handler that is registered or not.
  installer_of_type : ℕ → Bytes → Bool → Option Installer → Read Installer
  installer_of_type version t augmented old = elim (lookup t x.handlers) [
    | some w ↦
        if augmented then lift of_handler (new_augmented_instance w old) else ok (new_instance w)
    | none ↦
        if x.forbid_unknown_handlers
        then err unknown_handler
        else make_installer_for_unknown_type version (some t) augmented old
  ]

  -- One round of `setInstallers`: `none` leaves the map as it is.
  set_installer : ℕ → Option Bytes → Bool → Option Installer → Read (Option Installer)
  unfolding installer_of_type
  set_installer version none augmented old =
      make_installer_for_unknown_type version none augmented old >>= λ i. ok (some i)
  set_installer version (some t) augmented old =
      if length t == 0
      then (if augmented then ok none else err empty_payload_type)
      else (installer_of_type version t augmented old >>= λ i. ok (some i))

  put_installer : ℕ → Option Installer → Dict ℕ Installer → Dict ℕ Installer
  put_installer n none m = m
  put_installer n (some i) m = insert n i m

  -- `setInstallers`, from number `n` on.
  unfoldable pub set_installers_from :
      ℕ → ℕ → List UpdateType → Bool → Dict ℕ Installer → Read (Dict ℕ Installer)
  unfolding set_installer put_installer
  set_installers_from version n [] augmented m = ok m
  set_installers_from version n (u ∷ us) augmented m = do
    i ← set_installer version u.type augmented (lookup n m)
    set_installers_from version (suc n) us augmented (put_installer n i m)

-- `buildInstallerIndexedFileLists`: each file with the number of its payload, of `count` payloads.
number_in_range : ℕ → Bytes → ℤ → Read ℕ
number_in_range count file (pos n) = if ltb n count then ok n else err (file_of_no_payload file)
number_in_range count file (negsuc n) = err (file_of_no_payload file)

unfoldable pub build_file_lists : ℕ → List Bytes → Read (List (ℕ × DataFile))
unfolding number_in_range
build_file_lists count [] = ok []
build_file_lists count (file ∷ rest) =
    let later = build_file_lists count rest in
    if not (has_prefix file (codes "data/")) then later else (do
      (index, name) ← lift of_path (get_update_no_from_manifest_path file)
      n ← number_in_range count file index
      fs ← later
      ok ((n, named name) ∷ fs))

-- `fileLists[n]`.
unfoldable pub file_list_of : ℕ → List (ℕ × DataFile) → List DataFile
file_list_of n [] = []
file_list_of n ((i, f) ∷ fs) = if i == n then f ∷ file_list_of n fs else file_list_of n fs

-- The loop of `assignUpdateFiles`. A number beyond the lists is an index out of range.
unfoldable pub assign_files :
    ℕ → List (ℕ × DataFile) → List (ℕ × DataFile) → Dict ℕ Installer → Read (Dict ℕ Installer)
assign_files count fs augmented [] = ok []
assign_files count fs augmented ((n, i) ∷ m) =
    let later = assign_files count fs augmented m in
    if not (ltb n count) then err panic else (do
      set ← lift of_handler (set_update_files (file_list_of n fs) i)
      both ← lift of_handler (set_update_augment_files (file_list_of n augmented) set)
      rest ← later
      ok ((n, both) ∷ rest))

-- `assignUpdateFiles`.
unfoldable pub assign_update_files : Reader → Read Reader
unfolding assign_files build_file_lists
assign_update_files ar = do
  let count = length ar.installers
  fs ← build_file_lists count ar.files
  augmented ← build_file_lists count ar.augment_files
  m ← assign_files count fs augmented ar.installers
  ok (record ar { installers = m })
