-- ===== src/Reader/Merged.antt =====
-- What areader/reader.go gathers from the header and the payloads: `MergeArtifactDepends`,
-- `MergeArtifactProvides` and `MergeArtifactClearsProvides`. Payloads are walked in the order of the
-- list, Go's order is any.
pub mod Union
use mender_artifact.Prelude.{ℕ, List, [], ◌∷◌, ◌++◌, Option, none, some, Bytes}
use mender_artifact.Prelude.Result.{Result, ok, err, ◌>>=◌, or_err}
use mender_artifact.Prelude.Dict.{Dict, lookup, insert, bytes_eq}
use mender_artifact.Artifact.Json.{
  Json, Fields, end, field, null, bool, number, text, array, object,
}
use mender_artifact.Artifact.Metadata.{HeaderInfoer, get_artifact_depends, get_artifact_provides}
use mender_artifact.Handlers.{Installer, HandlerError}
use mender_artifact.Handlers.Updates.{
  Converter, entries_of, get_update_depends, get_update_provides, get_update_clears_provides,
}
use mender_artifact.Reader.{Reader}

pub data MergedError : Type 0 where
  panic : MergedError
  not_encoded : MergedError
  conflicting_key : Bytes → MergedError
  of_handler : HandlerError → MergedError

abbrev pub Merging {ℓ} : Type ℓ → Type ℓ
Merging A = Result MergedError A

abbrev pub lift_handler {ℓ} : {A : Type ℓ} → Result HandlerError A → Merging A
lift_handler (ok a) = ok a
lift_handler (err e) = err (of_handler e)

-- The inner loop: no key may be there before.
unfoldable pub add_entries {ℓ} : {V : Type ℓ} → Dict Bytes V → Dict Bytes V → Merging (Dict Bytes V)
add_entries [] m = ok m
add_entries ((k, v) ∷ new) m = elim (lookup k m) [
  | some old ↦ err (conflicting_key k)
  | none ↦ add_entries new (insert k v m)
]

-- A payload may have nothing to say.
add_said {ℓ} : {V : Type ℓ} → Option (Dict Bytes V) → Dict Bytes V → Merging (Dict Bytes V)
unfolding add_entries
add_said none m = ok m
add_said (some new) m = add_entries new m

-- The outer loop.
unfoldable pub add_payloads {ℓ} :
    {V : Type ℓ}
    → (Installer → Result HandlerError (Option (Dict Bytes V)))
    → Dict ℕ Installer
    → Dict Bytes V
    → Merging (Dict Bytes V)
unfolding add_said
add_payloads get [] m = ok m
add_payloads get ((n, i) ∷ is) m = do
  said ← lift_handler (get i)
  m' ← add_said said m
  add_payloads get is m'

-- The values of the header's provides, each asserted to be a string.
pub texts_of : Dict Bytes Json → Merging (Dict Bytes Bytes)
texts_of [] = ok []
texts_of ((k, text s) ∷ m) = texts_of m >>= λ rest. ok ((k, s) ∷ rest)
texts_of ((k, _) ∷ m) = err panic

-- The lists, one behind the other.
unfoldable pub all_cleared : Dict ℕ Installer → Merging (List Bytes)
all_cleared [] = ok []
all_cleared ((n, i) ∷ is) = do
  said ← lift_handler (get_update_clears_provides i)
  rest ← all_cleared is
  ok (elim said [ none ↦ rest | some l ↦ l ++ rest ])

module _ (x : Converter) where
  -- `MergeArtifactDepends`; `none` is nil, for an artifact without depends. The header is followed.
  unfoldable pub merge_artifact_depends : Reader → Merging (Option (Dict Bytes Json))
  unfolding add_payloads
  merge_artifact_depends ar = do
    hi ← or_err ar.h_info panic
    elim (get_artifact_depends hi) [
      | none ↦ ok none
      | some d ↦ (do
        base ← or_err (x.artifact_depends d) not_encoded
        m ← add_payloads (get_update_depends x) ar.installers (entries_of base)
        ok (some m))
    ]

  -- `MergeArtifactProvides`.
  unfoldable pub merge_artifact_provides : Reader → Merging (Option (Dict Bytes Bytes))
  unfolding add_payloads texts_of
  merge_artifact_provides ar = do
    hi ← or_err ar.h_info panic
    elim (get_artifact_provides hi) [
      | none ↦ ok none
      | some p ↦ (do
        base ← or_err (x.artifact_provides p) not_encoded
        texts ← texts_of (entries_of base)
        m ← add_payloads (get_update_provides x) ar.installers texts
        ok (some m))
    ]

-- `MergeArtifactClearsProvides`.
unfoldable pub merge_artifact_clears_provides : Reader → Merging (List Bytes)
unfolding all_cleared
merge_artifact_clears_provides ar = all_cleared ar.installers
