-- ===== src/Cli.antt =====
-- cli/write.go, from the arguments of a write command to the type information of a payload. The
-- library for command lines is a parameter: what it says of each flag. A nil list is the empty one.
pub mod Defaults
use mender_artifact.Prelude.{
  ℕ, zero, suc, ◌-◌, Bool, true, false, not, ◌&&◌, ◌||◌, List, [], ◌∷◌, ◌++◌, Option, none, some,
  Bytes, codes, eqb, has_prefix, drop, ltb, length, ◌==◌, space_in_front, trim_left, if◌then◌else◌,
}
use mender_artifact.Prelude.Result.{Result, ok, err, ◌>>=◌, ◌>>◌, guard, or_err}
use mender_artifact.Prelude.Dict.{Dict, lookup, insert, bytes_eq}
use mender_artifact.Artifact.Json.{Fields}
use mender_artifact.Artifact.Metadata.{TypeInfoV3, DependsValue, one}

pub data WriteError : Type 0 where
  missing_parameters white_space_in_name : WriteError
  no_colon : Bytes → WriteError
  unknown_command augment_type_missing bad_meta_data : WriteError

-- `cli.Context`: the command's name, its flags, and the arguments of the main command, joined.
pub record Context : Type 0 where
  pub command : Bytes
  pub string : Bytes → Bytes
  pub string_slice : Bytes → List Bytes
  pub bool : Bytes → Bool
  pub is_set : Bytes → Bool
  pub command_line : Bytes

abbrev pub empty : Bytes → Bool
empty s = length s == 0

drop_field : Bytes → Bytes
drop_field [] = []
drop_field (c ∷ s) = if space_in_front (c ∷ s) == 0 then drop_field s else c ∷ s

-- `len(strings.Fields(s)) > 1`.
two_fields : Bytes → Bool
unfolding drop_field
two_fields s = not (empty (trim_left (drop_field (trim_left s))))

-- `validateInput`.
unfoldable pub validate_input : Context → Result WriteError (Unit {0})
unfolding two_fields
validate_input ctx = do
  let file_missing =
      not (eqb ctx.command (codes "bootstrap-artifact")) && empty (ctx.string (codes "file"))
  guard
      (not (
        length (ctx.string_slice (codes "device-type")) == 0
        || empty (ctx.string (codes "artifact-name"))
        || file_missing))
      missing_parameters
  guard (not (two_fields (ctx.string (codes "artifact-name")))) white_space_in_name
  ok tt

-- The argument up to the first colon, and behind it: `strings.SplitN(arg, ":", 2)` with two parts.
unfoldable pub split_colon : Bytes → Option (Bytes × Bytes)
split_colon [] = none
split_colon (c ∷ s) =
    let rest = split_colon s in
    if c == b':' then some ([], s) else elim rest [ none ↦ none | some p ↦ some (c ∷ p.0, p.1) ]

-- The loop of `extractKeyValues`.
key_values : List Bytes → Dict Bytes Bytes → Result WriteError (Dict Bytes Bytes)
unfolding split_colon
key_values [] m = ok m
key_values (arg ∷ args) m = do
  p ← or_err (split_colon arg) (no_colon arg)
  key_values args (insert p.0 p.1 m)

-- `extractKeyValues`; `none` is nil.
unfoldable pub extract_key_values : List Bytes → Result WriteError (Option (Dict Bytes Bytes))
unfolding key_values
extract_key_values [] = ok none
extract_key_values (arg ∷ args) = key_values (arg ∷ args) [] >>= λ m. ok (some m)

-- `NewTypeInfoDepends` in its case of a map of strings.
depends_of_texts : Dict Bytes Bytes → Dict Bytes DependsValue
depends_of_texts [] = []
depends_of_texts ((k, v) ∷ m) = (k, one v) ∷ depends_of_texts m

optional_depends : Option (Dict Bytes Bytes) → Option (Dict Bytes DependsValue)
unfolding depends_of_texts
optional_depends none = none
optional_depends (some m) = some (depends_of_texts m)

-- `getSoftwareVersion`: at most one entry.
unfoldable pub get_software_version :
    Bytes → Bytes → Bytes → Bytes → Bytes → Bool → Dict Bytes Bytes
get_software_version artifact_name filesystem name name_default version no_default =
    let filesystem' = if not (empty filesystem) then filesystem else codes "rootfs-image" in
    let name' = if not no_default && empty name then name_default else name in
    let version' = if not no_default && empty version then artifact_name else version in
    let full = if not (empty name') then filesystem' ++ (b'.' ∷ name') else filesystem' in
    if not (empty full) && not (empty version')
    then (full ++ codes ".version", version') ∷ []
    else []

-- White space in a regular expression.
is_regexp_space : ℕ → Bool
is_regexp_space c = c == 32 || c == 9 || c == 10 || c == 12 || c == 13

-- `\s+` and the key behind it: the longest white space that the key follows.
behind_spaces : Bytes → Bytes → Option Bytes
unfolding is_regexp_space
behind_spaces key [] = none
behind_spaces key (c ∷ s) =
    let longer = behind_spaces key s in
    if is_regexp_space c
    then elim longer [
      | some rest ↦ some rest
      | none ↦ if has_prefix s key then some (drop (length key) s) else none
    ]
    else none

-- `(\s+|=)` and the key.
behind_separator : Bytes → Bytes → Option Bytes
unfolding behind_spaces
behind_separator key s = elim (behind_spaces key s) [
  | some rest ↦ some rest
  | none ↦ if has_prefix s (b'=' ∷ key) then some (drop (suc (length key)) s) else none
]

-- `(-p|--provides)(\s+|=)` and the key with its colon: what stands behind the match.
match_provides : Bytes → Bytes → Option Bytes
unfolding behind_separator
match_provides key s =
    if has_prefix s (codes "-p")
    then behind_separator key (drop 2 s)
    else if has_prefix s (codes "--provides")
    then behind_separator key (drop 10 s)
    else none

-- `--software-(name|version|filesystem)`.
match_software : Bytes → Option Bytes
match_software s =
    if has_prefix s (codes "--software-name")
    then some (drop 15 s)
    else if has_prefix s (codes "--software-version")
    then some (drop 18 s)
    else if has_prefix s (codes "--software-filesystem")
    then some (drop 21 s)
    else none

-- The start of the last of the matches that `FindAllStringIndex` finds: how many bytes are left there.
-- A match is passed over as a whole; `skip` bytes of the last one are still to come.
last_match : (Bytes → Option Bytes) → Bytes → ℕ → Option ℕ → Option ℕ
last_match match [] skip found = found
last_match match (c ∷ s) zero found = elim (match (c ∷ s)) [
  | none ↦ last_match match s 0 found
  | some rest ↦ last_match match s (length s - length rest) (some (suc (length s)))
]
last_match match (c ∷ s) (suc skip) found = last_match match s skip found

-- `softwareVersionOverridesProvides`: fewer bytes are left where a match starts later.
unfoldable pub software_version_overrides_provides : Context → Bytes → Bool
unfolding last_match match_provides match_software
software_version_overrides_provides ctx key =
    elim (last_match (match_provides (key ++ b':' ∷ [])) ctx.command_line 0 none) [
      | none ↦ true
      | some p ↦ elim (last_match match_software ctx.command_line 0 none) [
        | none ↦ false
        | some s ↦ ltb s p
      ]
    ]

-- A missing key reads as the empty string.
is_unset : Option Bytes → Bool
is_unset none = true
is_unset (some old) = empty old

-- The loop over the one entry at most.
apply_entries : Context → Dict Bytes Bytes → Dict Bytes Bytes → Dict Bytes Bytes
unfolding is_unset
apply_entries ctx [] m = m
apply_entries ctx ((k, v) ∷ new) m =
    apply_entries ctx new (
      if is_unset (lookup k m) || software_version_overrides_provides ctx k
      then insert k v m
      else m)

texts_or_empty : Option (Dict Bytes Bytes) → Dict Bytes Bytes
texts_or_empty none = []
texts_or_empty (some m) = m

-- The software version that the flags ask for.
unfoldable pub version_entries : Context → Dict Bytes Bytes
version_entries ctx =
    get_software_version (ctx.string (codes "artifact-name"))
      (ctx.string (codes "software-filesystem")) (ctx.string (codes "software-name"))
      (if eqb ctx.command (codes "module-image") then ctx.string (codes "type") else [])
      (ctx.string (codes "software-version")) (ctx.bool (codes "no-default-software-version"))

-- `applySoftwareVersionToTypeInfoProvides`.
unfoldable pub apply_software_version : Context → Option (Dict Bytes Bytes) → Dict Bytes Bytes
unfolding apply_entries version_entries texts_or_empty
apply_software_version ctx provides =
    if eqb ctx.command (codes "bootstrap-artifact")
    then texts_or_empty provides
    else apply_entries ctx (version_entries ctx) (texts_or_empty provides)

pub is_member : Bytes → List Bytes → Bool
is_member c [] = false
is_member c (d ∷ ds) = eqb c d || is_member c ds

-- The end of `makeClearsArtifactProvides`: the default is added unless it is there.
add_default : Bytes → List Bytes → List Bytes
unfolding is_member
add_default c list = if is_member c list then list else list ++ c ∷ []

-- `makeClearsArtifactProvides` once the defaults are on and the file system is chosen.
default_cleared : Bytes → Bytes → Bytes → Bytes → List Bytes → Result WriteError (List Bytes)
unfolding add_default
default_cleared command filesystem name type list =
    if ltb 0 (length name)
    then ok (add_default (filesystem ++ (b'.' ∷ ((name ++ codes ".") ++ codes "*"))) list)
    else if eqb command (codes "rootfs-image")
    then ok (
        add_default (filesystem ++ (b'.' ∷ codes "*")) (
          if eqb filesystem (codes "rootfs-image")
          then list ++ codes "artifact_group" ∷ codes "rootfs_image_checksum" ∷ []
          else list))
    else if eqb command (codes "module-image")
    then ok (add_default (filesystem ++ (b'.' ∷ ((type ++ codes ".") ++ codes "*"))) list)
    else err unknown_command

-- `makeClearsArtifactProvides`.
unfoldable pub make_clears_artifact_provides : Context → Result WriteError (List Bytes)
unfolding default_cleared
make_clears_artifact_provides ctx =
    let list = ctx.string_slice (codes "clears-provides") in
    if ctx.bool (codes "no-default-clears-provides")
      || ctx.bool (codes "no-default-software-version")
      || eqb ctx.command (codes "bootstrap-artifact")
    then ok list
    else default_cleared ctx.command
        (if ctx.is_set (codes "software-filesystem")
          then ctx.string (codes "software-filesystem")
          else codes "rootfs-image")
        (ctx.string (codes "software-name")) (ctx.string (codes "type")) list

asks_augmented : Context → Bool
asks_augmented ctx =
    not (length (ctx.string_slice (codes "augment-file")) == 0)
    || not (length (ctx.string_slice (codes "augment-depends")) == 0)
    || not (length (ctx.string_slice (codes "augment-provides")) == 0)
    || not (empty (ctx.string (codes "augment-meta-data")))

-- `makeTypeInfo`: the type information, and the augmented one if there is an augmented type.
unfoldable pub make_type_info : Context → Result WriteError (TypeInfoV3 × Option TypeInfoV3)
unfolding extract_key_values optional_depends apply_software_version make_clears_artifact_provides
    asks_augmented
make_type_info ctx = do
  depends ← extract_key_values (ctx.string_slice (codes "depends"))
  provides ← extract_key_values (ctx.string_slice (codes "provides"))
  augment_depends ← extract_key_values (ctx.string_slice (codes "augment-depends"))
  augment_provides ← extract_key_values (ctx.string_slice (codes "augment-provides"))
  clears ← make_clears_artifact_provides ctx
  let info : TypeInfoV3 = record {
    type =
        if eqb ctx.command (codes "bootstrap-artifact")
        then none
        else some (ctx.string (codes "type"));
    artifact_depends = optional_depends depends;
    artifact_provides = some (apply_software_version ctx provides);
    clears_artifact_provides = some clears;
  }
  let augmented : TypeInfoV3 = record {
    type = some (ctx.string (codes "augment-type"));
    artifact_depends = optional_depends augment_depends;
    artifact_provides = augment_provides;
    clears_artifact_provides = none;
  }
  if empty (ctx.string (codes "augment-type"))
      then (if asks_augmented ctx then err augment_type_missing else ok (info, none))
      else ok (info, some augmented)
