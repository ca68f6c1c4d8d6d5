-- ===== src/Tests/Commands.antt =====
-- cli/write.go on the flags of one command.
use mender_artifact.Prelude.{
  false, List, [], ◌∷◌, none, some, ◌≡◌, refl, Bytes, codes, eqb, has_prefix, trim_left,
  if◌then◌else◌,
}
use mender_artifact.Prelude.Result.{ok}
use mender_artifact.Prelude.Dict.{lookup, insert}
use mender_artifact.Cli.{
  Context, split_colon, extract_key_values, get_software_version, version_entries, validate_input,
  apply_software_version, software_version_overrides_provides, make_clears_artifact_provides,
  make_type_info,
}

-- `mender-artifact write module-image -T script -n release -t board -p a:b=c`.
abbrev flag : Bytes → Bytes
flag name =
    if eqb name (codes "type")
    then codes "script"
    else if eqb name (codes "artifact-name")
    then codes "release"
    else if eqb name (codes "file")
    then codes "f"
    else []

abbrev flags : Bytes → List Bytes
flags name =
    if eqb name (codes "provides")
    then codes "a:b=c" ∷ []
    else if eqb name (codes "device-type")
    then codes "board" ∷ []
    else []

abbrev context : Context
context = record {
  command = codes "module-image";
  string = flag;
  string_slice = flags;
  bool = λ name. false;
  is_set = λ name. false;
  command_line = codes "write module-image -p a:b=c";
}

valid : validate_input context ≡ ok tt
unfolding validate_input eqb trim_left
valid = refl

colon : extract_key_values (codes "a:b:c" ∷ []) ≡ ok (some ((codes "a", codes "b:c") ∷ []))
unfolding extract_key_values split_colon lookup insert eqb
colon = refl

overridden : software_version_overrides_provides context (codes "a") ≡ false
unfolding software_version_overrides_provides has_prefix
overridden = refl

typed :
    make_type_info context
    ≡ ok (
      record {
        type = some (codes "script");
        artifact_depends = none;
        artifact_provides = some (
            (codes "a", codes "b=c") ∷ (codes "rootfs-image.script.version", codes "release") ∷ []);
        clears_artifact_provides = some (codes "rootfs-image.script.*" ∷ []);
      },
      none,
    )
unfolding make_type_info extract_key_values split_colon lookup insert eqb version_entries
    get_software_version apply_software_version make_clears_artifact_provides
typed = refl
