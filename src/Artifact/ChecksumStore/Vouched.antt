-- ===== src/Artifact/ChecksumStore/Vouched.antt =====
-- A `ChecksumStore` of artifact/checksum.go in use: a file is marked only when bytes for it were
-- found whose checksum is the manifest's.
use mender_artifact.Prelude.{
  Bool, true, false, [], ◌∷◌, some, ◌≡◌, ◌≢◌, ◌⊎◌, inl, inr, ap, subst, ◌∙◌, arith, Bytes, eqb,
  eqb_iff, Bool-cases,
}
use mender_artifact.Prelude.Result.{ok}
use mender_artifact.Prelude.Dict.{Dict, lookup, lookup-insert, bytes_eq}
use mender_artifact.Artifact.Checksum.{hex_encode}
use mender_artifact.Artifact.ChecksumStore.{
  ChecksumStore, new_checksum_store, add, get, get_and_mark, files_not_marked, not_marked, read_raw,
}
use mender_artifact.Artifact.ChecksumStore.Invariant.{get_and_mark-eq-ok, read_raw_keep}

not_marked-false : (j : Bytes) (m : Dict Bytes Bool) → not_marked m ≡ [] → lookup j m ≢ some false
unfolding not_marked lookup
not_marked-false j [] h = λ e. cc
not_marked-false j ((i, b) ∷ m) h = λ e. ground (arith, not_marked-false j m)

module _ (sha256 : Bytes → Bytes) (Q : Bytes → Bytes → Type 0) where
  -- Some bytes that `Q` allows for this file have this checksum.
  abbrev pub HasBytes : Bytes → Bytes → Type 0
  HasBytes file sum = (b : Bytes) × Q file b × (eqb sum (hex_encode (sha256 b)) ≡ true)

  -- Every file is not yet marked or has its bytes.
  abbrev pub Vouched : ChecksumStore → Type 0
  Vouched c =
      (j sum : Bytes)
      → lookup j c.sums ≡ some sum
      → (lookup j c.marked ≡ some false) ⊎ HasBytes j sum

  pub Vouched-new : Vouched new_checksum_store
  unfolding lookup
  Vouched-new j sum h = cc

  add-Vouched :
      (file sum : Bytes) (c c' : ChecksumStore) → Vouched c → add file sum c ≡ ok c' → Vouched c'
  unfolding add
  add-Vouched file sum c c' v h j s e =
      ground (arith, lookup-insert file j sum c.sums, lookup-insert file j false c.marked, v j s)

  pub read_raw-Vouched :
      (text : Bytes) (c : ChecksumStore) {c' : ChecksumStore}
      → Vouched c
      → read_raw text c ≡ ok c'
      → Vouched c'
  read_raw-Vouched = read_raw_keep Vouched add-Vouched

  pub get_and_mark-Vouched :
      (file : Bytes) (c : ChecksumStore) {sum : Bytes} {c' : ChecksumStore}
      → Vouched c
      → get_and_mark file c ≡ ok (sum, c')
      → HasBytes file sum
      → Vouched c'
  get_and_mark-Vouched file c {sum} {c'} v h b j s e =
      let (found, same) = get_and_mark-eq-ok file c h in
      let before : lookup j c.sums ≡ some s = rw same at e in
      elim (Bool-cases (eqb file j)) [
        | inl here ↦
            let names = (eqb_iff file j).0 here in
            inr (
              subst (λ k. HasBytes k s) names
                (subst (HasBytes file) (ground (arith, found, before, names)) b))
        | inr other ↦ elim (v j s before) [
          | inl unseen ↦ inl (
              ap (λ d. lookup j d.marked) same
              ∙ ground (arith, lookup-insert file j true c.marked, other, unseen))
          | inr there ↦ inr there
        ]
      ]

  pub Vouched-get :
      (c : ChecksumStore) (j : Bytes) {sum : Bytes}
      → Vouched c
      → files_not_marked c ≡ []
      → get j c ≡ ok sum
      → HasBytes j sum
  unfolding get files_not_marked
  Vouched-get c j {sum} v all h = elim (v j sum (ground arith)) [
    | inl unseen ↦ absurd (not_marked-false j c.marked all unseen)
    | inr there ↦ there
  ]
