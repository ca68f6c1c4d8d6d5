-- ===== src/Reader/Grammar.antt =====
-- The parse paths of areader/reader.go: `artifactV3ParseGrammar` and `verifyParseOrder`.
pub mod Sound
pub mod Signature
pub mod Shape
use mender_artifact.Prelude.{
  ℕ, suc, ◌+◌, Bool, true, false, List, [], ◌∷◌, Option, none, some, Bytes, codes, eqb, length, ltb,
  ◌==◌, if◌then◌else◌,
}

-- The token, and whether it ends a path; `none` is `errParseOrder`.
abbrev pub Verdict : Type 0
Verdict = Option (Bytes × Bool)

abbrev manifest : Bytes
manifest = codes "manifest"

abbrev manifest_sig : Bytes
manifest_sig = codes "manifest.sig"

abbrev manifest_augment : Bytes
manifest_augment = codes "manifest-augment"

-- `artifactV3ParseGrammar`: the version is read before.
unfoldable pub artifact_v3_parse_grammar : List (List Bytes)
artifact_v3_parse_grammar =
    (manifest ∷ codes "header.tar" ∷ [])
    ∷ (manifest ∷ manifest_sig ∷ codes "header.tar" ∷ [])
    ∷ (manifest ∷ manifest_augment ∷ codes "header.tar" ∷ codes "header-augment.tar" ∷ [])
    ∷ (manifest
        ∷ manifest_sig
        ∷ manifest_augment
        ∷ codes "header.tar"
        ∷ codes "header-augment.tar"
        ∷ [])
    ∷ (manifest ∷ codes "header.tar.gz" ∷ [])
    ∷ (manifest ∷ manifest_sig ∷ codes "header.tar.gz" ∷ [])
    ∷ (manifest ∷ manifest_augment ∷ codes "header.tar.gz" ∷ codes "header-augment.tar.gz" ∷ [])
    ∷ (manifest
        ∷ manifest_sig
        ∷ manifest_augment
        ∷ codes "header.tar.gz"
        ∷ codes "header-augment.tar.gz"
        ∷ [])
    ∷ (manifest ∷ codes "header.tar.xz" ∷ [])
    ∷ (manifest ∷ manifest_sig ∷ codes "header.tar.xz" ∷ [])
    ∷ (manifest ∷ manifest_augment ∷ codes "header.tar.xz" ∷ codes "header-augment.tar.xz" ∷ [])
    ∷ (manifest
        ∷ manifest_sig
        ∷ manifest_augment
        ∷ codes "header.tar.xz"
        ∷ codes "header-augment.tar.xz"
        ∷ [])
    ∷ (manifest ∷ codes "header.tar.zst" ∷ [])
    ∷ (manifest ∷ manifest_sig ∷ codes "header.tar.zst" ∷ [])
    ∷ (manifest ∷ manifest_augment ∷ codes "header.tar.zst" ∷ codes "header-augment.tar.zst" ∷ [])
    ∷ (manifest
        ∷ manifest_sig
        ∷ manifest_augment
        ∷ codes "header.tar.zst"
        ∷ codes "header-augment.tar.zst"
        ∷ [])
    ∷ []

-- The inner loop over one path: what it returns, or `none` if it breaks off. It returns at the
-- last element of `order`, with the test whether the path ends there too.
submatch : List Bytes → List Bytes → Verdict
submatch path [] = none
submatch [] (t ∷ order) = none
submatch (v ∷ path) (t ∷ []) = if eqb v t then some (t, length path == 0) else none
submatch (v ∷ path) (t ∷ u ∷ order) = if eqb v t then submatch path (u ∷ order) else none

or_next : Verdict → Verdict → Verdict
or_next (some v) later = some v
or_next none later = later

-- The loop over the grammar; a path that is shorter than `order` is skipped.
verify_against : List (List Bytes) → List Bytes → Verdict
unfolding submatch or_next
verify_against [] order = none
verify_against (path ∷ grammar) order =
    let later = verify_against grammar order in
    if ltb (length path) (length order) then later else or_next (submatch path order) later

-- `verifyParseOrder`.
unfoldable pub verify_parse_order : List Bytes → Verdict
unfolding verify_against artifact_v3_parse_grammar
verify_parse_order order = verify_against artifact_v3_parse_grammar order
