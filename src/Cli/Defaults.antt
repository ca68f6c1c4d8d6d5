-- ===== src/Cli/Defaults.antt =====
-- The defaults of cli/write.go for the software version: what is provided, and what is cleared.
use mender_artifact.Prelude.{
  true, false, not, List, [], ◌∷◌, ◌++◌, ◌≡◌, ◌⊎◌, Bytes, codes, eqb, if◌then◌else◌,
}
use mender_artifact.Prelude.Result.{Result, ok}
use mender_artifact.Cli.{WriteError, empty, is_member}

-- The list has `name.*` where the key is `name.version`.
abbrev pub Covers : Result WriteError (List Bytes) → Bytes → Type 0
Covers cleared key =
    (list : List Bytes) × (name : Bytes) × (cleared ≡ ok list)
    × (key ≡ name ++ codes ".version")
    × (is_member (name ++ codes ".*") list ≡ true)

-- The name in the key, and the key in front of its last part.
abbrev name_of : Bytes → Bytes → Bytes → Bytes
name_of command name type =
    if empty name then (if eqb command (codes "module-image") then type else []) else name

abbrev full_name : Bytes → Bytes → Bytes
full_name filesystem name = if not (empty name) then filesystem ++ (b'.' ∷ name) else filesystem

abbrev pub HasDefaults : Bytes → Bytes → Type 0
HasDefaults command type =
    (command ≡ codes "rootfs-image") ⊎ ((command ≡ codes "module-image") × (empty type ≡ false))

abbrev chosen : Bytes → Bytes
chosen filesystem = if not (empty filesystem) then filesystem else codes "rootfs-image"
