-- ===== src/Tests/Scripts.antt =====
-- The theorems on state scripts, on two names.
use mender_artifact.Prelude.{
  [], ◌∷◌, ◌++◌, none, some, ◌≡◌, ◌↔◌, refl, Bytes, codes, eqb, has_prefix, split, split_from,
  has_suffix, trim_suffix,
}
use mender_artifact.Prelude.Dict.{lookup, insert}
use mender_artifact.Prelude.FilePath.{base}
use mender_artifact.Prelude.Result.{ok}
use mender_artifact.Artifact.Scripter.{
  Scripts, add, get, find_state, is_letter, is_action, available_script_type,
}
use mender_artifact.Artifact.Scripter.Names.{IsMatch, find_state-none_iff}
use mender_artifact.Artifact.Scripter.Invariant.{IsValid, add-IsValid}

-- The name is looked through from any place to any place.
somewhere : find_state [] (codes "!ArtifactInstall_Enter_05@") ≡ some (codes "ArtifactInstall")
unfolding find_state is_letter is_action has_prefix
somewhere = refl

abbrev no_scripts : Scripts
no_scripts = record { names = [] }

abbrev name : Bytes
name = codes "ArtifactInstall_Enter_05_wifi"

abbrev one_script : Scripts
one_script = record { names = (name, codes "s/ArtifactInstall_Enter_05_wifi") ∷ [] }

added : add (codes "s/ArtifactInstall_Enter_05_wifi") no_scripts ≡ ok one_script
unfolding add find_state is_letter is_action available_script_type base lookup insert eqb has_prefix
    split split_from has_suffix trim_suffix
added = refl

no_scripts-IsValid : IsValid no_scripts
unfolding get
no_scripts-IsValid = record { named = refl; distinct = tt; scripts = tt }

add-IsValid_example :
    IsValid one_script
    × (get one_script ≡ get no_scripts ++ codes "s/ArtifactInstall_Enter_05_wifi" ∷ [])
add-IsValid_example =
    add-IsValid (codes "s/ArtifactInstall_Enter_05_wifi") no_scripts one_script no_scripts-IsValid
      added

find_state-none_iff_example :
    (find_state [] (codes "ArtifactInstall") ≡ none) ↔ (¬ IsMatch (codes "ArtifactInstall"))
find_state-none_iff_example = find_state-none_iff (codes "ArtifactInstall")
