-- ===== src/Artifact/Scripter.antt =====
-- artifact/scripter.go: the state scripts of an artifact, and the names that they may have. A Go map is
-- an association list in the order of insertion; `Get` has some order, and this is one.
pub mod Names
pub mod Invariant
use mender_artifact.Prelude.{
  ℕ, ◌+◌, Bool, true, false, not, ◌&&◌, ◌||◌, List, [], ◌∷◌, ◌++◌, Option, none, some, Bytes, codes,
  eqb, has_prefix, drop, leb, length, ◌==◌, if◌then◌else◌,
}
use mender_artifact.Prelude.Result.{Result, ok, err, ◌>>=◌, ◌>>◌, guard, or_err}
use mender_artifact.Prelude.Dict.{Dict, lookup, insert, bytes_eq}
use mender_artifact.Prelude.FilePath.{base}

pub data ScriptError : Type 0 where
  invalid_script_name unsupported_script_state script_exists : Bytes → ScriptError

-- `Scripts`: the paths by their base names.
pub record Scripts : Type 0 where
  pub names : Dict Bytes Bytes

-- `availableScriptType`.
unfoldable pub available_script_type : Bytes → Bool
available_script_type state =
    eqb state (codes "ArtifactInstall")
    || eqb state (codes "ArtifactReboot")
    || eqb state (codes "ArtifactCommit")
    || eqb state (codes "ArtifactRollback")
    || eqb state (codes "ArtifactRollbackReboot")
    || eqb state (codes "ArtifactFailure")

-- `[A-Za-z]` and `[0-9]`.
unfoldable pub is_letter : ℕ → Bool
is_letter c = (leb b'A' c && leb c b'Z') || (leb b'a' c && leb c b'z')

is_digit : ℕ → Bool
is_digit c = leb b'0' c && leb c b'9'

two_digits : Bytes → Bool
unfolding is_digit
two_digits (c ∷ d ∷ s) = is_digit c && is_digit d
two_digits _ = false

-- `(Enter|Leave|Error)_[0-9][0-9]`; what may follow is optional.
unfoldable pub is_action : Bytes → Bool
unfolding two_digits
is_action s =
    (has_prefix s (codes "Enter_")
      || has_prefix s (codes "Leave_")
      || has_prefix s (codes "Error_"))
    && two_digits (drop 6 s)

-- The leftmost match of the expression, which is not anchored: the letters of its first group.
-- Those behind the last other character are read already.
unfoldable pub find_state : Bytes → Bytes → Option Bytes
unfolding is_letter is_action
find_state letters [] = none
find_state letters (c ∷ s) =
    let longer = find_state (letters ++ c ∷ []) s in
    let later = find_state [] s in
    if is_letter c
    then longer
    else if c == b'_' && not (length letters == 0) && is_action s
    then some letters
    else later

-- `Add`.
unfoldable pub add : Bytes → Scripts → Result ScriptError Scripts
unfolding find_state available_script_type
add path s = do
  let name = base path
  state ← or_err (find_state [] name) (invalid_script_name name)
  guard (available_script_type state) (unsupported_script_state state)
  elim (lookup name s.names) [
    | some old ↦ err (script_exists name)
    | none ↦ ok (record { names = insert name path s.names })
  ]

values : Dict Bytes Bytes → List Bytes
values [] = []
values ((name, path) ∷ m) = path ∷ values m

-- `Get`.
unfoldable pub get : Scripts → List Bytes
unfolding values
get s = values s.names
