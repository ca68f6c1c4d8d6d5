-- ===== src/Reader/Headers/Run.antt =====
-- The loop of `readHeaderV3` of areader/reader.go as a relation on its states: each step reads one
-- entry that the grammar allows after those read before.
use mender_artifact.Prelude.{
  Bool, true, false, not, ◌&&◌, List, [], ◌∷◌, ◌++◌, some, ◌≡◌, inl, inr, refl, ap, subst, ◌∙◌,
  arith, Bytes, codes, eqb, eqb_iff, append_assoc, Option-cases, Bool-cases,
}
use mender_artifact.Prelude.Result.{ok, ok_injective, Result-cases}
use mender_artifact.Artifact.ChecksumStore.Marks.{contains}
use mender_artifact.Tar.{Body, Entry, Tar, entry, eof, broken}
use mender_artifact.Reader.{Environment, Reader, Read}
use mender_artifact.Reader.Grammar.{verify_parse_order, artifact_v3_parse_grammar}
use mender_artifact.Reader.Grammar.Sound.{
  Member, last, verify_parse_order_sound, verify_parse_order-full_iff,
}
use mender_artifact.Reader.Headers.{handle_header_reads, read_v3_entries}

last-concat : (path : List Bytes) (name : Bytes) → last (path ++ name ∷ []) ≡ some name
last-concat [] name = refl
last-concat (a ∷ []) name = refl
last-concat (a ∷ b ∷ path) name = last-concat (b ∷ path) name

-- The archive with these entries before the rest.
abbrev pub then : List Entry → Tar → Tar
then [] t = t
then (e ∷ es) t = entry e (then es t)

abbrev pub names : List Entry → List Bytes
names [] = []
names (e ∷ es) = e.name ∷ names es

module _ (x : Environment) (version : Bytes) where
  -- From the names read so far, the archive and the reader to the rest and the reader at the end.
  pub data Run : List Bytes → Tar → Reader → Tar → Reader → Type 0 where
    stop :
        {path : List Bytes} (e : Entry) {t : Tar} {ar ar1 : Reader}
        → verify_parse_order (path ++ e.name ∷ []) ≡ some (e.name, true)
        → handle_header_reads x e.name version e.body ar ≡ ok ar1
        → (x.should_be_signed && not ar1.is_signed) ≡ false
        → Run path (entry e t) ar t ar1
    next :
        {path : List Bytes} (e : Entry) {t rest : Tar} {ar ar1 ar2 : Reader}
        → verify_parse_order (path ++ e.name ∷ []) ≡ some (e.name, false)
        → handle_header_reads x e.name version e.body ar ≡ ok ar1
        → Run (path ++ e.name ∷ []) t ar1 rest ar2
        → Run path (entry e t) ar rest ar2

  token_name :
      (path : List Bytes) (name token : Bytes) (full : Bool)
      → verify_parse_order (path ++ name ∷ []) ≡ some (token, full)
      → token ≡ name
  token_name path name token full h =
      let (p, rest, m, e, l, f) = verify_parse_order_sound (path ++ name ∷ []) token full h in
      cc (l, last-concat path name)

  pub read_v3_entries-Run :
      (t : Tar) (path : List Bytes) (ar : Reader) {ar' : Reader} {rest : Tar}
      → read_v3_entries x version t path ar ≡ ok (ar', rest)
      → Run path t ar rest ar'
  unfolding read_v3_entries
  read_v3_entries-Run eof path ar h = cc
  read_v3_entries-Run broken path ar h = cc
  read_v3_entries-Run (entry e t) path ar {ar'} {rest} h =
      elim (Option-cases (verify_parse_order (path ++ e.name ∷ []))) [
        | inl refused ↦ cc (rw (refused, read_v3_entries) at h)
        | inr ((token, full), found0) ↦
            let is_name = token_name path e.name token full found0 in
            let found : verify_parse_order (path ++ e.name ∷ []) ≡ some (e.name, full) =
              found0 ∙ ap (λ n. some (n, full)) is_name in
            elim (Result-cases (handle_header_reads x e.name version e.body ar)) [
              | inr (e', failed) ↦ ground (arith, found, failed)
              | inl (ar1, handled) ↦ elim (Bool-cases full) [
                | inl end ↦
                    let found1 : verify_parse_order (path ++ e.name ∷ []) ≡ some (e.name, true) =
                      found ∙ ap (λ b. some (e.name, b)) end in
                    elim (Bool-cases (x.should_be_signed && not ar1.is_signed)) [
                      | inl unsigned ↦ ground (arith, found1, handled, unsigned)
                      | inr signed ↦
                          let same : ◌≡◌ {A = Read (Reader × Tar)} (ok (ar1, t)) (ok (ar', rest)) =
                            ground (arith, found1, handled, signed) in
                          subst (λ p. Run path (entry e t) ar p.1 p.0) (ok_injective same)
                            (stop e found1 handled signed)
                    ]
                | inr more ↦
                    let found1 : verify_parse_order (path ++ e.name ∷ []) ≡ some (e.name, false) =
                      found ∙ ap (λ b. some (e.name, b)) more in
                    next e found1 handled (
                      read_v3_entries-Run t (path ++ e.name ∷ []) ar1
                        (ground (arith, found1, handled)))
              ]
            ]
      ]

  not_zst :
      (name : Bytes) (body : Body) (ar ar1 : Reader)
      → handle_header_reads x name version body ar ≡ ok ar1
      → eqb name (codes "header-augment.tar.zst") ≡ false
  unfolding handle_header_reads eqb
  not_zst name body ar ar1 h = elim (Bool-cases (eqb name (codes "header-augment.tar.zst"))) [
    | inl is ↦ cc (
        subst (λ n. handle_header_reads x n version body ar ≡ ok ar1)
          ((eqb_iff name (codes "header-augment.tar.zst")).0 is) h)
    | inr other ↦ other
  ]

  Run-path :
      {path : List Bytes} {t rest : Tar} {ar ar' : Reader}
      → Run path t ar rest ar'
      → (es : List Entry) × (t ≡ then es rest)
        × Member (path ++ names es) artifact_v3_parse_grammar
        × (contains (codes "header-augment.tar.zst") (names es) ≡ false)
  unfolding contains
  Run-path (stop {path} e allowed h s) = (
    e ∷ [],
    refl,
    ((verify_parse_order-full_iff (path ++ e.name ∷ []) e.name).0 allowed).0,
    ground (arith, not_zst e.name e.body _ _ h),
  )
  Run-path (next {path} e allowed h r) =
      let (es, same, m, absent) = Run-path r in
      (
        e ∷ es,
        ap (λ t. entry e t) same,
        subst (λ p. Member p artifact_v3_parse_grammar) (append_assoc path (e.name ∷ []) (names es))
            m,
        ground (arith, not_zst e.name e.body _ _ h, absent),
      )

  pub Run-read_v3_entries :
      {path : List Bytes} {t rest : Tar} {ar ar' : Reader}
      → Run path t ar rest ar'
      → read_v3_entries x version t path ar ≡ ok (ar', rest)
  unfolding read_v3_entries
  Run-read_v3_entries (stop e ok_name h s) = ground arith
  Run-read_v3_entries (next e ok_name h r) = ground (arith, Run-read_v3_entries r)

  -- If the loop of `readHeaderV3` accepts an archive, then the names that it has read are one of the
  -- sixteen paths of the grammar, and none of the two that end with `header-augment.tar.zst`.
  pub read_v3_entries-Member :
      (t rest : Tar) (ar ar' : Reader)
      → read_v3_entries x version t [] ar ≡ ok (ar', rest)
      → (es : List Entry) × (t ≡ then es rest)
        × Member (names es) artifact_v3_parse_grammar
        × (contains (codes "header-augment.tar.zst") (names es) ≡ false)
  read_v3_entries-Member t rest ar ar' h = Run-path (read_v3_entries-Run t [] ar h)
