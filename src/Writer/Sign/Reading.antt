-- ===== src/Writer/Sign/Reading.antt =====
-- What areader/reader.go makes of an archive that `SignExisting` of awriter/signer.go has signed.
use mender_artifact.Prelude.{
  ℕ, Bool, true, false, List, [], ◌∷◌, ◌++◌, Option, some, ◌≡◌, inl, inr, sym, ap, subst, ◌∙◌,
  arith, Bytes, codes, eqb, eqb_iff, append_assoc, Bool-cases,
}
use mender_artifact.Prelude.Result.{ok, >>=-elim, ok_injective, Result-cases}
use mender_artifact.Artifact.ChecksumStore.{get_raw}
use mender_artifact.Tar.{Entry, Tar, entry, eof, broken}
use mender_artifact.Reader.{Environment, Reader}
use mender_artifact.Reader.Grammar.{verify_parse_order}
use mender_artifact.Reader.Grammar.Shape.{not_signature}
use mender_artifact.Reader.Grammar.Signature.{verify_parse_order-put_sig, not_manifest}
use mender_artifact.Reader.Headers.{handle_header_reads, signature_read_and_verify}
use mender_artifact.Reader.Headers.Mark.{mark_signed, handle_header_reads-mark_signed}
use mender_artifact.Reader.Headers.Run.{Run, stop, next}
use mender_artifact.Writer.{archive}
use mender_artifact.Writer.Sign.{copy_entry, sign_entries}

-- No entry here is a manifest or its signature.
abbrev pub HasNoManifest : Tar → Type 0
HasNoManifest eof = Unit
HasNoManifest broken = Unit
HasNoManifest (entry e t) =
    (eqb e.name (codes "manifest") ≡ false)
    × (eqb e.name (codes "manifest.sig") ≡ false)
    × HasNoManifest t

module _ (sign : Bytes → Option Bytes) (one_read : Bytes → ℕ) (overwrite : Bool) where
  -- Another entry is copied.
  sign_entries_copy :
      (e : Entry) (t : Tar) {found : Bool} {es : List Entry}
      → eqb e.name (codes "manifest") ≡ false
      → eqb e.name (codes "manifest.sig") ≡ false
      → sign_entries sign one_read overwrite (entry e t) ≡ ok (found, es)
      → (es' : List Entry) × (sign_entries sign one_read overwrite t ≡ ok (found, es'))
        × (es ≡ e ∷ es')
  unfolding sign_entries copy_entry
  sign_entries_copy e t n1 n2 h = elim (Result-cases (sign_entries sign one_read overwrite t)) [
    | inl ((found', es'), there) ↦
        (es', ground (arith, n1, n2, there, h), ground (arith, n1, n2, there, h))
    | inr (er, failed) ↦ ground (arith, n1, n2, failed, h)
  ]

  sign_entries-HasNoManifest :
      (t : Tar) {found : Bool} {es : List Entry}
      → HasNoManifest t
      → sign_entries sign one_read overwrite t ≡ ok (found, es)
      → archive es ≡ t
  unfolding sign_entries
  sign_entries-HasNoManifest eof p h = sym (ap (λ r. archive r.1) (ok_injective h))
  sign_entries-HasNoManifest broken p h = cc
  sign_entries-HasNoManifest (entry e t) p h =
      let (es', there, same) = sign_entries_copy e t p.0 p.1 h in
      ap archive same ∙ ap (λ r. entry e r) (sign_entries-HasNoManifest t p.2 there)

  module _ (x : Environment) (version : Bytes) where
    -- The names read from the unsigned archive and those read from the signed one lead to the same
    -- tokens.
    abbrev Follows : Bytes → Bytes → List Bytes → Type 0
    Follows a b pre =
        (s : List Bytes) (n : Bytes) (whole : Bool)
        → verify_parse_order (a ∷ b ∷ s) ≡ some (n, whole)
        → verify_parse_order (pre ++ s) ≡ some (n, whole)

    allowed-Follows :
        (a b : Bytes) (pre : List Bytes)
        → Follows a b pre
        → (r : List Bytes) (n : Bytes) (whole : Bool)
        → verify_parse_order ((a ∷ b ∷ r) ++ n ∷ []) ≡ some (n, whole)
        → verify_parse_order ((pre ++ r) ++ n ∷ []) ≡ some (n, whole)
    allowed-Follows a b pre k r n whole h =
        ap verify_parse_order (append_assoc pre r (n ∷ [])) ∙ k (r ++ n ∷ []) n whole h

    -- From the third name on, both archives are read alike.
    signed-Run :
        (a b : Bytes) (pre : List Bytes)
        → Follows a b pre
        → (r : List Bytes) {path : List Bytes} {t rest : Tar} {ar ar' : Reader} {found : Bool}
          {es : List Entry}
        → Run x version path t ar rest ar'
        → path ≡ a ∷ b ∷ r
        → HasNoManifest rest
        → sign_entries sign one_read overwrite t ≡ ok (found, es)
        → Run x version (pre ++ r) (archive es) (mark_signed ar) rest (mark_signed ar')
    signed-Run a b pre k r {rest = rest} {ar = ar} {ar' = ar'} (stop e {t} allowed handled signed)
          same p h =
        let allowed1 =
          subst (λ q. verify_parse_order (q ++ e.name ∷ []) ≡ some (e.name, true)) same allowed in
        let n2 = not_signature a b r e.name e.name true allowed1 in
        let n1 = not_manifest a (b ∷ r) e.name e.name true allowed1 in
        let (es', there, es_is) = sign_entries_copy e t n1 n2 h in
        subst (λ u. Run x version (pre ++ r) u (mark_signed ar) t (mark_signed ar'))
          (ap (λ u. entry e u) (sym (sign_entries-HasNoManifest t p there))
            ∙ ap archive (sym es_is))
          (stop e (allowed-Follows a b pre k r e.name true allowed1)
            (handle_header_reads-mark_signed x version e.body ar e.name n2 handled) (ground arith))
    signed-Run a b pre k r {rest = rest} {ar = ar} {ar' = ar'}
          (next e {t} {ar1 = ar1} allowed handled run) same p h =
        let allowed1 =
          subst (λ q. verify_parse_order (q ++ e.name ∷ []) ≡ some (e.name, false)) same allowed in
        let n2 = not_signature a b r e.name e.name false allowed1 in
        let n1 = not_manifest a (b ∷ r) e.name e.name false allowed1 in
        let (es', there, es_is) = sign_entries_copy e t n1 n2 h in
        subst (λ u. Run x version (pre ++ r) u (mark_signed ar) rest (mark_signed ar'))
          (ap archive (sym es_is))
          (next e (allowed-Follows a b pre k r e.name false allowed1)
            (handle_header_reads-mark_signed x version e.body ar e.name n2 handled)
            (subst (λ q. Run x version q (archive es') (mark_signed ar1) rest (mark_signed ar'))
              (sym (append_assoc pre r (e.name ∷ [])))
              (signed-Run a b pre k (r ++ e.name ∷ []) run (ap (λ q. q ++ e.name ∷ []) same) p
                there)))

    signature_marks :
        (e : Entry) (ar : Reader) {ar1 : Reader}
        → e.name ≡ codes "manifest.sig"
        → handle_header_reads x e.name version e.body ar ≡ ok ar1
        → ar1 ≡ mark_signed ar
    unfolding handle_header_reads eqb
    signature_marks e ar {ar1} is h =
        let h1 = subst (λ n. handle_header_reads x n version e.body ar ≡ ok ar1) is h in
        >>=-elim (signature_read_and_verify x e.body (get_raw ar.manifest)) _ h1
          (λ u e1 e2. sym (ok_injective e2))

    -- The old signature is left out, which only `overwrite` allows.
    sign_entries_drop :
        (e : Entry) (t : Tar) {found : Bool} {es : List Entry}
        → e.name ≡ codes "manifest.sig"
        → sign_entries sign one_read overwrite (entry e t) ≡ ok (found, es)
        → sign_entries sign one_read overwrite t ≡ ok (found, es)
    unfolding sign_entries eqb
    sign_entries_drop e t {found} {es} is h = ground (arith, is, h)

    -- The second name, before which the signed archive has the new signature.
    pub second-Run :
        {path : List Bytes} {t rest : Tar} {ar ar' : Reader} {found : Bool} {es : List Entry}
        → Run x version path t ar rest ar'
        → path ≡ codes "manifest" ∷ []
        → HasNoManifest rest
        → sign_entries sign one_read overwrite t ≡ ok (found, es)
        → Run x version
            (codes "manifest" ∷ codes "manifest.sig" ∷ [])
            (archive es)
            (mark_signed ar)
            rest
            (mark_signed ar')
    unfolding verify_parse_order eqb
    second-Run {ar = ar} {ar' = ar'} (stop e {t} allowed handled signed) same p h =
        let allowed1 =
          subst (λ q. verify_parse_order (q ++ e.name ∷ []) ≡ some (e.name, true)) same allowed in
        elim (Bool-cases (eqb e.name (codes "manifest.sig"))) [
          | inl is ↦ cc (
              subst (λ n. verify_parse_order (codes "manifest" ∷ n ∷ []) ≡ some (n, true))
                ((eqb_iff e.name (codes "manifest.sig")).0 is) allowed1)
          | inr n2 ↦
              let n1 = not_manifest (codes "manifest") [] e.name e.name true allowed1 in
              let (es', there, es_is) = sign_entries_copy e t n1 n2 h in
              subst
                (λ u.
                  Run x version (codes "manifest" ∷ codes "manifest.sig" ∷ []) u (mark_signed ar) t
                    (mark_signed ar'))
                (ap (λ u. entry e u) (sym (sign_entries-HasNoManifest t p there))
                  ∙ ap archive (sym es_is))
                (stop e
                  (verify_parse_order-put_sig (codes "manifest") e.name [] n2 e.name true allowed1)
                  (handle_header_reads-mark_signed x version e.body ar e.name n2 handled)
                  (ground arith))
        ]
    second-Run {rest = rest} {ar = ar} {ar' = ar'} {es = es}
          (next e {t} {ar1 = ar1} allowed handled run) same p h =
        let allowed1 =
          subst (λ q. verify_parse_order (q ++ e.name ∷ []) ≡ some (e.name, false)) same allowed in
        elim (Bool-cases (eqb e.name (codes "manifest.sig"))) [
          | inl yes_sig ↦
              let is = (eqb_iff e.name (codes "manifest.sig")).0 yes_sig in
              subst
                (λ r.
                  Run x version (codes "manifest" ∷ codes "manifest.sig" ∷ []) (archive es) r rest
                    (mark_signed ar'))
                (ap mark_signed (signature_marks e ar is handled))
                (signed-Run (codes "manifest") (codes "manifest.sig")
                  (codes "manifest" ∷ codes "manifest.sig" ∷ []) (λ s n whole k. k) [] run
                  (ap (λ q. q ++ e.name ∷ []) same ∙ ap (λ n. codes "manifest" ∷ n ∷ []) is) p
                  (sign_entries_drop e t is h))
          | inr n2 ↦
              let n1 = not_manifest (codes "manifest") [] e.name e.name false allowed1 in
              let (es', there, es_is) = sign_entries_copy e t n1 n2 h in
              subst
                (λ u.
                  Run x version (codes "manifest" ∷ codes "manifest.sig" ∷ []) u (mark_signed ar)
                    rest (mark_signed ar'))
                (ap archive (sym es_is))
                (next e
                  (verify_parse_order-put_sig (codes "manifest") e.name [] n2 e.name false allowed1)
                  (handle_header_reads-mark_signed x version e.body ar e.name n2 handled)
                  (signed-Run (codes "manifest") e.name
                    (codes "manifest" ∷ codes "manifest.sig" ∷ e.name ∷ [])
                    (λ s n whole k.
                      verify_parse_order-put_sig (codes "manifest") e.name s n2 n whole k)
                    [] run (ap (λ q. q ++ e.name ∷ []) same) p there))
        ]
