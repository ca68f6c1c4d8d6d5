-- ===== src/Reader/Merged/Union.antt =====
-- The merge of `MergeArtifactDepends` and `MergeArtifactProvides` of areader/reader.go as a union.
use mender_artifact.Prelude.{
  ℕ, [], ◌∷◌, Option, none, some, ◌≡◌, ◌↔◌, ◌⊎◌, inl, inr, sym, ap, subst, ◌∙◌, arith, Bytes, eqb,
  eqb_iff, Bool-cases, Option-cases,
}
use mender_artifact.Prelude.Result.{
  Result, ok, err, ◌>>=◌, >>=-elim, ok_injective, or_err, or_err-eq-ok,
}
use mender_artifact.Prelude.Dict.{Dict, lookup, insert, lookup-insert, bytes_eq}
use mender_artifact.Artifact.Json.{Json, Fields}
use mender_artifact.Artifact.Metadata.{
  HeaderInfoer, ArtifactProvides, ArtifactDepends, get_artifact_provides, get_artifact_depends,
}
use mender_artifact.Handlers.{Installer, HandlerError}
use mender_artifact.Handlers.Updates.{
  Converter, entries_of, get_update_provides, get_update_depends,
}
use mender_artifact.Reader.{Reader}
use mender_artifact.Reader.Merged.{
  lift_handler, add_said, add_entries, add_payloads, texts_of, merge_artifact_provides,
  merge_artifact_depends, not_encoded, panic,
}

lift_handler-eq-ok :
    {A : Type 0} (m : Result HandlerError A) {a : A} → lift_handler m ≡ ok a → m ≡ ok a
lift_handler-eq-ok (ok b) h = ap ok (ok_injective h)
lift_handler-eq-ok (err e) h = cc

same_handled : {A : Type 0} {a b : A} (m : Result HandlerError A) → m ≡ ok a → m ≡ ok b → a ≡ b
same_handled m h g = ok_injective (sym h ∙ g)

module _ {V : Type 0} where
  -- The list has this entry.
  abbrev pub Has : Bytes → V → Dict Bytes V → Type 0
  Has k v [] = ⊥
  Has k v ((j, w) ∷ m) = ((j ≡ k) × (w ≡ v)) ⊎ Has k v m

  -- One of the payloads says this.
  abbrev pub Says :
      (Installer → Result HandlerError (Option (Dict Bytes V)))
      → Bytes
      → V
      → Dict ℕ Installer
      → Type 0
  Says get k v [] = ⊥
  Says get k v ((n, i) ∷ is) =
      ((new : Dict Bytes V) × (get i ≡ ok (some new)) × Has k v new) ⊎ Says get k v is

  lookup-insert_iff :
      (k j : Bytes) (v w : V) (m : Dict Bytes V)
      → lookup j m ≡ none
      → (lookup k (insert j w m) ≡ some v) ↔ (((j ≡ k) × (w ≡ v)) ⊎ (lookup k m ≡ some v))
  lookup-insert_iff k j v w m fresh = elim (Bool-cases (eqb j k)) [
    | inl same ↦
        let here = lookup-insert j k w m in
        let is = (eqb_iff j k).0 same in
        (
          λ h. inl (is, ground (arith, here, same, h)),
          λ c. elim c [
            | inl e ↦ ground (arith, here, same, e.1)
            | inr there ↦ cc (subst (λ t. lookup t m ≡ none) is fresh, there)
          ],
        )
    | inr other ↦
        let here = lookup-insert j k w m in
        (
          λ h. inr (ground (arith, here, other, h)),
          λ c. elim c [
            | inl e ↦ ground (arith, other, (eqb_iff j k).1 e.0)
            | inr there ↦ ground (arith, here, other, there)
          ],
        )
  ]

  lookup-add_entries_iff :
      (new m : Dict Bytes V) {m' : Dict Bytes V}
      → add_entries new m ≡ ok m'
      → (k : Bytes) (v : V) → (lookup k m' ≡ some v) ↔ ((lookup k m ≡ some v) ⊎ Has k v new)
  unfolding add_entries
  lookup-add_entries_iff [] m {m'} h k v =
      let same = ok_injective h in
      (
        λ e. inl (ap (lookup k) same ∙ e),
        λ c. elim c [ inl e ↦ sym (ap (lookup k) same) ∙ e | inr no_entry ↦ absurd no_entry ],
      )
  lookup-add_entries_iff ((j, w) ∷ new) m {m'} h k v = elim (Option-cases (lookup j m)) [
    | inr (old, there) ↦ cc (rw (there, add_entries) at h)
    | inl fresh ↦
        let rest = lookup-add_entries_iff new (insert j w m) (rw (fresh, add_entries) at h) k v in
        let first = lookup-insert_iff k j v w m fresh in
        (
          λ e. elim (rest.0 e) [
            | inr later ↦ inr (inr later)
            | inl inserted ↦ elim (first.0 inserted) [
              | inl here ↦ inr (inl here)
              | inr before ↦ inl before
            ]
          ],
          λ c. elim c [
            | inl before ↦ rest.1 (inl (first.1 (inr before)))
            | inr said ↦ elim said [
              | inl here ↦ rest.1 (inl (first.1 (inl here)))
              | inr later ↦ rest.1 (inr later)
            ]
          ],
        )
  ]

  payload_iff :
      (get : Installer → Result HandlerError (Option (Dict Bytes V))) (n : ℕ) (i : Installer)
      (is : Dict ℕ Installer) (m : Dict Bytes V) {m' : Dict Bytes V} (said : Option (Dict Bytes V))
      → ((m : Dict Bytes V)
          → add_payloads get is m ≡ ok m'
          → (k : Bytes) (v : V)
          → (lookup k m' ≡ some v) ↔ ((lookup k m ≡ some v) ⊎ Says get k v is))
      → get i ≡ ok said
      → (add_said said m >>= add_payloads get is) ≡ ok m'
      → (k : Bytes) (v : V)
      → (lookup k m' ≡ some v) ↔ ((lookup k m ≡ some v) ⊎ Says get k v ((n, i) ∷ is))
  unfolding add_said
  payload_iff get n i is m none later there h k v =
      let rest = later m h k v in
      (
        λ e. elim (rest.0 e) [ inl before ↦ inl before | inr said ↦ inr (inr said) ],
        λ c. elim c [
          | inl before ↦ rest.1 (inl before)
          | inr said ↦ elim said [
            | inl (new, here, has) ↦ cc (same_handled (get i) there here)
            | inr after ↦ rest.1 (inr after)
          ]
        ],
      )
  payload_iff get n i is m (some new) later there h k v =
      >>=-elim (add_entries new m) _ h (λ m1 added h1.
        let rest = later m1 h1 k v in
        let first = lookup-add_entries_iff new m added k v in
        (
          λ e. elim (rest.0 e) [
            | inr after ↦ inr (inr after)
            | inl in_first ↦ elim (first.0 in_first) [
              | inl before ↦ inl before
              | inr has ↦ inr (inl (new, there, has))
            ]
          ],
          λ c. elim c [
            | inl before ↦ rest.1 (inl (first.1 (inl before)))
            | inr said ↦ elim said [
              | inl (new', here, has) ↦
                  let same : new' ≡ new = cc (same_handled (get i) there here) in
                  rest.1 (inl (first.1 (inr (subst (Has k v) same has))))
              | inr after ↦ rest.1 (inr after)
            ]
          ],
        ))

  lookup-add_payloads_iff :
      (get : Installer → Result HandlerError (Option (Dict Bytes V))) (is : Dict ℕ Installer)
      (m : Dict Bytes V) {m' : Dict Bytes V}
      → add_payloads get is m ≡ ok m'
      → (k : Bytes) (v : V) → (lookup k m' ≡ some v) ↔ ((lookup k m ≡ some v) ⊎ Says get k v is)
  unfolding add_payloads
  lookup-add_payloads_iff get [] m {m'} h k v =
      let same = ok_injective h in
      (
        λ e. inl (ap (lookup k) same ∙ e),
        λ c. elim c [ inl e ↦ sym (ap (lookup k) same) ∙ e | inr no_payload ↦ absurd no_payload ],
      )
  lookup-add_payloads_iff get ((n, i) ∷ is) m h k v =
      >>=-elim (lift_handler (get i)) _ h (λ said e1 h1.
        payload_iff get n i is m said (λ m1 later. lookup-add_payloads_iff get is m1 later)
          (lift_handler-eq-ok (get i) e1) h1 k v)

-- The texts are the header's entries that are texts, and there are no others.
lookup-texts_of_iff :
    (m : Dict Bytes Json) {texts : Dict Bytes Bytes}
    → texts_of m ≡ ok texts
    → (k v : Bytes) → (lookup k texts ≡ some v) ↔ (lookup k m ≡ some (Json.text v))
unfolding texts_of lookup
lookup-texts_of_iff [] h k v =
    let empty = sym (ok_injective h) in (λ e. cc (sym (ap (lookup k) empty) ∙ e), λ e. cc (e))
lookup-texts_of_iff ((j, Json.text s) ∷ m) {texts} h k v = >>=-elim (texts_of m) _ h (λ rest e1 h1.
    let later = lookup-texts_of_iff m e1 k v in
    let same : texts ≡ (j, s) ∷ rest = sym (ok_injective h1) in
    elim (Bool-cases (eqb j k)) [
      | inl here ↦ (
        λ e. ground (arith, here, ap (lookup k) same, e),
        λ e. ap (lookup k) same ∙ ground (arith, here, e),
      )
      | inr other ↦ (
        λ e. ground (arith, other, later.0 (ground (arith, other, ap (lookup k) same, e))),
        λ e. ap (lookup k) same ∙ ground (arith, other, later.1 (ground (arith, other, e))),
      )
    ])
lookup-texts_of_iff ((j, w) ∷ m) h k v = cc (h)

module _ (x : Converter) where
  -- If `MergeArtifactProvides` returns a map, then the header has provides, and a key has a value in the
  -- map exactly if it is the text under that key in the header's provides or one of the payloads says
  -- it: nothing is lost, and nothing is overwritten.
  pub merge_artifact_provides-union :
      (ar : Reader) (m : Dict Bytes Bytes)
      → merge_artifact_provides x ar ≡ ok (some m)
      → (hi : HeaderInfoer) × (p : ArtifactProvides) × (base : Fields) × (ar.h_info ≡ some hi)
        × (get_artifact_provides hi ≡ some p)
        × (x.artifact_provides p ≡ some base)
        × ((k v : Bytes)
            → (lookup k m ≡ some v) ↔ (
                (lookup k (entries_of base) ≡ some (Json.text v))
                ⊎ Says (get_update_provides x) k v ar.installers))
  unfolding merge_artifact_provides
  merge_artifact_provides-union ar m h = >>=-elim (or_err ar.h_info panic) _ h (λ hi e1 h1.
      elim (Option-cases (get_artifact_provides hi)) [
        | inl nil ↦ cc (rw nil at h1)
        | inr (p, there) ↦
            >>=-elim (or_err (x.artifact_provides p) not_encoded) _ (rw there at h1) (λ base e2 h2.
              >>=-elim (texts_of (entries_of base)) _ h2 (λ texts e3 h3.
                >>=-elim (add_payloads (get_update_provides x) ar.installers texts) _ h3
                  (λ m' e4 h4.
                    let same : m' ≡ m = cc (ok_injective h4) in
                    (
                      hi,
                      p,
                      base,
                      or_err-eq-ok _ _ e1,
                      there,
                      or_err-eq-ok _ _ e2,
                      λ k v.
                          let either =
                            lookup-add_payloads_iff (get_update_provides x) ar.installers texts
                              (e4 ∙ ap ok same) k v in
                          let header = lookup-texts_of_iff (entries_of base) e3 k v in
                          (
                            λ found. elim (either.0 found) [
                              | inl text ↦ inl (header.0 text)
                              | inr said ↦ inr said
                            ],
                            λ c. elim c [
                              | inl text ↦ either.1 (inl (header.1 text))
                              | inr said ↦ either.1 (inr said)
                            ],
                          ),
                    ))))
      ])

  -- The same for `MergeArtifactDepends`.
  pub merge_artifact_depends-union :
      (ar : Reader) (m : Dict Bytes Json)
      → merge_artifact_depends x ar ≡ ok (some m)
      → (hi : HeaderInfoer) × (d : ArtifactDepends) × (base : Fields) × (ar.h_info ≡ some hi)
        × (get_artifact_depends hi ≡ some d)
        × (x.artifact_depends d ≡ some base)
        × ((k : Bytes) (v : Json)
            → (lookup k m ≡ some v) ↔ (
                (lookup k (entries_of base) ≡ some v)
                ⊎ Says (get_update_depends x) k v ar.installers))
  unfolding merge_artifact_depends
  merge_artifact_depends-union ar m h = >>=-elim (or_err ar.h_info panic) _ h (λ hi e1 h1.
      elim (Option-cases (get_artifact_depends hi)) [
        | inl nil ↦ cc (rw nil at h1)
        | inr (d, there) ↦
            >>=-elim (or_err (x.artifact_depends d) not_encoded) _ (rw there at h1) (λ base e2 h2.
              >>=-elim (add_payloads (get_update_depends x) ar.installers (entries_of base)) _ h2
                (λ m' e3 h3.
                  let same : m' ≡ m = cc (ok_injective h3) in
                  (
                    hi,
                    d,
                    base,
                    or_err-eq-ok _ _ e1,
                    there,
                    or_err-eq-ok _ _ e2,
                    λ k v.
                        lookup-add_payloads_iff (get_update_depends x) ar.installers
                          (entries_of base) (e3 ∙ ap ok same) k v,
                  )))
      ])
