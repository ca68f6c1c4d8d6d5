-- ===== src/Artifact/Metadata.antt =====
-- artifact/metadata.go: the structures of the header, and what `Validate` says of them. Decoding a
-- JSON text into a structure is `encoding/json`; the checks that the package's own `UnmarshalJSON`
-- methods make are here.
pub mod Validate
pub mod Depends
use mender_artifact.Prelude.{
  ℕ, Bool, true, false, ◌||◌, ◌++◌, List, [], ◌∷◌, Option, none, some, Bytes, codes, length, ltb,
  ◌==◌, if◌then◌else◌,
}
use mender_artifact.Prelude.Result.{Result, ok, err, ◌>>=◌}
use mender_artifact.Prelude.Dict.{Dict}
use mender_artifact.Artifact.Json.{Json, Items, Fields, nil, cons, end, field}
use mender_artifact.Artifact.Json

pub data MetadataError : Type 0 where
  validating_data : MetadataError
  compatible_devices : MetadataError
  missing_arguments : Bytes → MetadataError
  invalid_type : MetadataError
  not_json : MetadataError

abbrev pub Checked : Type 0
Checked = Result MetadataError (Unit {0})

pub record Info : Type 0 where
  pub format : Bytes
  pub version : ℕ

-- The zero value, which an empty text decodes to.
abbrev pub zero_info : Info
zero_info = record { format = []; version = 0 }

-- `Info.Validate`.
unfoldable pub validate_info : Info → Checked
validate_info i = if length i.format == 0 || i.version == 0 then err validating_data else ok tt

-- `UpdateType`: the type may be nil.
pub record UpdateType : Type 0 where
  pub type : Option Bytes

pub record ArtifactDepends : Type 0 where
  pub artifact_name : List Bytes
  pub compatible_devices : List Bytes
  pub artifact_group : List Bytes

pub record ArtifactProvides : Type 0 where
  pub artifact_name : Bytes
  pub artifact_group : Bytes

pub record HeaderInfo : Type 0 where
  pub artifact_name : Bytes
  pub updates : List UpdateType
  pub compatible_devices : List Bytes

pub record HeaderInfoV3 : Type 0 where
  pub updates : List UpdateType
  pub artifact_provides : Option ArtifactProvides
  pub artifact_depends : Option ArtifactDepends

-- `HeaderInfo.UnmarshalJSON`, behind the decoding of the alias.
unfoldable pub unmarshal_header_info : HeaderInfo → Result MetadataError HeaderInfo
unmarshal_header_info buf =
    if length buf.compatible_devices == 0 then err MetadataError.compatible_devices else ok buf

-- `ArtifactDepends.UnmarshalJSON`, behind the decoding of the alias.
unfoldable pub unmarshal_artifact_depends : ArtifactDepends → Result MetadataError ArtifactDepends
unmarshal_artifact_depends buf =
    if length buf.compatible_devices == 0 then err MetadataError.compatible_devices else ok buf

-- `HeaderInfoer`: the two versions behind one interface.
pub data HeaderInfoer : Type 0 where
  v2 : HeaderInfo → HeaderInfoer
  v3 : HeaderInfoV3 → HeaderInfoer

unfoldable pub get_artifact_name : HeaderInfoer → Bytes
get_artifact_name (v2 hi) = hi.artifact_name
get_artifact_name (v3 hi) = elim hi.artifact_provides [ none ↦ [] | some p ↦ p.artifact_name ]

unfoldable pub get_compatible_devices : HeaderInfoer → List Bytes
get_compatible_devices (v2 hi) = hi.compatible_devices
get_compatible_devices (v3 hi) = elim hi.artifact_depends [
  | none ↦ []
  | some d ↦ d.compatible_devices
]

unfoldable pub get_updates : HeaderInfoer → List UpdateType
get_updates (v2 hi) = hi.updates
get_updates (v3 hi) = hi.updates

unfoldable pub get_artifact_depends : HeaderInfoer → Option ArtifactDepends
get_artifact_depends (v2 hi) = none
get_artifact_depends (v3 hi) = hi.artifact_depends

unfoldable pub get_artifact_provides : HeaderInfoer → Option ArtifactProvides
get_artifact_provides (v2 hi) = none
get_artifact_provides (v3 hi) = hi.artifact_provides

-- `strings.Join(missingArgs[1:], ", ")`.
joined : List Bytes → Bytes
joined [] = []
joined (a ∷ []) = a
joined (a ∷ b ∷ rest) = a ++ (codes ", " ++ joined (b ∷ rest))

-- The end of both `Validate` methods: `args` is `missingArgs[1:]`.
report_missing : List Bytes → Checked
unfolding joined
report_missing [] = ok tt
report_missing (a ∷ rest) = err (
    missing_arguments (
      codes "Artifact validation failed with missing argument"
      ++ ((if ltb 1 (length (a ∷ rest)) then codes "s" else [])
          ++ (codes ": " ++ joined (a ∷ rest)))))

-- A message if the test holds.
message_if : Bool → Bytes → List Bytes
message_if b m = if b then m ∷ [] else []

-- Whether one of the updates is the empty structure.
has_empty_payload : List UpdateType → Bool
has_empty_payload [] = false
has_empty_payload (u ∷ us) = elim u.type [ none ↦ true | some t ↦ has_empty_payload us ]

-- `HeaderInfo.Validate`.
unfoldable pub validate_header_info : HeaderInfo → Checked
unfolding report_missing message_if has_empty_payload
validate_header_info hi = report_missing (
    message_if (length hi.updates == 0) (codes "No Payloads added")
    ++ (message_if (length hi.compatible_devices == 0) (codes "No compatible devices listed")
        ++ (message_if (length hi.artifact_name == 0) (codes "No artifact name")
            ++ message_if (has_empty_payload hi.updates) (codes "Empty Payload"))))

missing_provides : Option ArtifactProvides → List Bytes
unfolding message_if
missing_provides none = codes "Empty Artifact provides" ∷ []
missing_provides (some p) = message_if (length p.artifact_name == 0) (codes "Artifact name")

-- `HeaderInfoV3.Validate`.
unfoldable pub validate_header_info_v3 : HeaderInfoV3 → Checked
unfolding report_missing message_if missing_provides
validate_header_info_v3 hi = report_missing (
    message_if (length hi.updates == 0) (codes "No Payloads added")
    ++ missing_provides hi.artifact_provides)

-- `TypeInfo.Validate`.
unfoldable pub validate_type_info : Bytes → Checked
validate_type_info type = if length type == 0 then err validating_data else ok tt

-- A value of `TypeInfoDepends`: a string or a list of strings.
pub data DependsValue : Type 0 where
  one : Bytes → DependsValue
  many : List Bytes → DependsValue

pub record TypeInfoV3 : Type 0 where
  pub type : Option Bytes
  pub artifact_depends : Option (Dict Bytes DependsValue)
  pub artifact_provides : Option (Dict Bytes Bytes)
  pub clears_artifact_provides : Option (List Bytes)

-- `TypeInfoV3.Validate`: nil is allowed, the empty string is not.
unfoldable pub validate_type_info_v3 : TypeInfoV3 → Checked
validate_type_info_v3 ti = elim ti.type [
  | none ↦ ok tt
  | some t ↦ if length t == 0 then err validating_data else ok tt
]

-- `Files.Validate`.
unfoldable pub validate_files : List Bytes → Checked
validate_files [] = ok tt
validate_files (f ∷ fs) = if length f == 0 then err validating_data else validate_files fs

-- The strings of an array; an entry of another type is an error.
strings : Items → Result MetadataError (List Bytes)
strings nil = ok []
strings (cons (Json.text s) rest) = strings rest >>= λ ss. ok (s ∷ ss)
strings (cons _ rest) = err invalid_type

depends_value : Json → Result MetadataError DependsValue
depends_value (Json.text s) = ok (one s)
depends_value (Json.array items) = strings items >>= λ ss. ok (many ss)
depends_value _ = err invalid_type

-- `NewTypeInfoDepends` on a decoded JSON object, which is its first case. Its case of a map of strings is
-- `depends_of_texts` of Cli; a map of lists of strings, and what is no map, are left out.
unfoldable pub new_type_info_depends : Fields → Result MetadataError (Dict Bytes DependsValue)
unfolding strings depends_value
new_type_info_depends end = ok []
new_type_info_depends (field k v m) = do
  w ← depends_value v
  rest ← new_type_info_depends m
  ok ((k, w) ∷ rest)

provides_value : Json → Result MetadataError Bytes
provides_value (Json.text s) = ok s
provides_value _ = err invalid_type

-- `NewTypeInfoProvides` on a decoded JSON object, which is its first case; its others, a map of strings,
-- which it copies, and what is no map, are left out.
unfoldable pub new_type_info_provides : Fields → Result MetadataError (Dict Bytes Bytes)
unfolding provides_value
new_type_info_provides end = ok []
new_type_info_provides (field k v m) = do
  w ← provides_value v
  rest ← new_type_info_provides m
  ok ((k, w) ∷ rest)
