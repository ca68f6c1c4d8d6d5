-- ===== src/Artifact/Metadata/Validate.antt =====
-- When the `Validate` methods of artifact/metadata.go accept.
use mender_artifact.Prelude.{
  true, false, List, [], ◌∷◌, none, some, ◌≡◌, ◌≢◌, ◌↔◌, inl, inr, refl, arith, Bytes, All,
  is_empty_iff, Option-cases,
}
use mender_artifact.Prelude.Result.{ok}
use mender_artifact.Artifact.Metadata.{
  HeaderInfo, HeaderInfoV3, UpdateType, ArtifactProvides, validate_header_info,
  validate_header_info_v3, report_missing, has_empty_payload,
}

has_empty_payload_iff :
    (us : List UpdateType) → (has_empty_payload us ≡ false) ↔ All (λ u. u.type ≢ none) us
unfolding has_empty_payload
has_empty_payload_iff [] = (λ h. tt, λ h. refl)
has_empty_payload_iff (u ∷ us) =
    let (f, g) = has_empty_payload_iff us in
    elim (u.type)
      as (λ t.
        ((elim t [ none ↦ true | some t ↦ has_empty_payload us ]) ≡ false)
        ↔ ((t ≢ none) × All (λ u. u.type ≢ none) us)) [
          | none ↦ (λ h. cc, λ h. absurd (h.0 refl))
          | some t ↦ (λ h. ((cc), f h), λ h. g h.1)
        ]

report_missing-ok : (args : List Bytes) → report_missing args ≡ ok tt → args ≡ []
unfolding report_missing
report_missing-ok [] h = refl
report_missing-ok (a ∷ rest) h = cc

-- `HeaderInfo.Validate` accepts exactly a header with a payload, a compatible device, a name, and
-- no payload whose type is missing.
pub validate_header_info_iff :
    (hi : HeaderInfo)
    → (validate_header_info hi ≡ ok tt) ↔ (
        (hi.updates ≢ [])
        × (hi.compatible_devices ≢ [])
        × (hi.artifact_name ≢ [])
        × All (λ u. u.type ≢ none) hi.updates)
unfolding validate_header_info
validate_header_info_iff hi =
    let updates = is_empty_iff hi.updates in
    let devices = is_empty_iff hi.compatible_devices in
    let name = is_empty_iff hi.artifact_name in
    let types = has_empty_payload_iff hi.updates in
    (
      λ h. (
        ground (arith, updates),
        ground (arith, devices),
        ground (arith, name),
        types.0 (ground arith),
      ),
      λ h. ground (arith, updates, devices, name, types.1 h.3),
    )

-- `HeaderInfoV3.Validate` accepts exactly a header with a payload and with provides that have a
-- name; what it depends on is not asked for.
pub validate_header_info_v3_iff :
    (hi : HeaderInfoV3)
    → (validate_header_info_v3 hi ≡ ok tt) ↔ (
        (hi.updates ≢ [])
        × ((p : ArtifactProvides) × (hi.artifact_provides ≡ some p) × (p.artifact_name ≢ [])))
unfolding validate_header_info_v3
validate_header_info_v3_iff hi = elim (Option-cases hi.artifact_provides) [
  | inl missing ↦ (λ h. absurd (ground (arith, missing)), λ h. cc (missing, h.1.1))
  | inr (p, e) ↦
      let updates = is_empty_iff hi.updates in
      let name = is_empty_iff p.artifact_name in
      (
        λ h. (ground (arith, updates, e), (p, e, ground (arith, name, e))),
        λ h. ground (arith, updates, e, name),
      )
]
