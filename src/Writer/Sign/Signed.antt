-- ===== src/Writer/Sign/Signed.antt =====
-- An archive that `SignExisting` of awriter/signer.go has signed, in the loop of `readHeaderV3` of
-- areader/reader.go.
use mender_artifact.Prelude.{
  Bool-cases, ℕ, length, ◌==◌, Bool, true, false, List, [], ◌∷◌, ◌++◌, Option, some, ◌≡◌, inl, inr,
  refl, sym, ap, subst, ◌∙◌, arith, Bytes, codes, eqb, Option-cases,
}
use mender_artifact.Prelude.Result.{ok, guard, >>=-elim, ok_injective, Result-cases}
use mender_artifact.Artifact.ChecksumStore.{ChecksumStore, get_raw, read_raw}
use mender_artifact.Tar.{full, Entry, Tar, entry}
use mender_artifact.Handlers.Compose.{stream_entry}
use mender_artifact.Reader.{Environment, Reader}
use mender_artifact.Reader.Grammar.{verify_parse_order}
use mender_artifact.Reader.Grammar.Shape.{first_name, not_alone}
use mender_artifact.Reader.Headers.{read_v3_entries}
use mender_artifact.Reader.Headers.Mark.{mark_signed, manifest_text, signature_token}
use mender_artifact.Reader.Headers.Run.{Run, stop, next, read_v3_entries-Run, Run-read_v3_entries}
use mender_artifact.Writer.{archive}
use mender_artifact.Writer.Sign.{
  manifest_not_found, sign_manifest_and_output_signature, sign_entries, sign_existing,
}
use mender_artifact.Writer.Sign.Reading.{HasNoManifest, second-Run}

module _ (sign : Bytes → Option Bytes) (one_read : Bytes → ℕ) (overwrite : Bool) where
  sign_entries_manifest :
      (e : Entry) (t : Tar) (text : Bytes) {found : Bool} {es : List Entry}
      → e.name ≡ codes "manifest"
      → e.body ≡ full text
      → sign_entries sign one_read overwrite (entry e t) ≡ ok (found, es)
      → (sig : Bytes) × (found' : Bool) × (es' : List Entry) × (sign text ≡ some sig)
        × (sign_entries sign one_read overwrite t ≡ ok (found', es'))
        × (es ≡ e ∷ stream_entry (codes "manifest.sig") sig ∷ es')
  unfolding sign_entries sign_manifest_and_output_signature eqb
  sign_entries_manifest e t text {found} {es} is whole h =
      elim (Bool-cases (one_read text == length text)) [
        | inr short ↦ ground (arith, is, whole, short, h)
        | inl read ↦ elim (Option-cases (sign text)) [
          | inl refused ↦ ground (arith, is, whole, read, refused, h)
          | inr (sig, signed) ↦ elim (Result-cases (sign_entries sign one_read overwrite t)) [
            | inr (er, failed) ↦ ground (arith, is, whole, read, signed, failed, h)
            | inl ((found', es'), there) ↦
                (sig, found', es', signed, there, ground (arith, is, whole, read, signed, there, h))
          ]
        ]
      ]

module _ (sign : Bytes → Option Bytes) (one_read : Bytes → ℕ) (overwrite : Bool) (x : Environment)
    (version : Bytes) where
  first-Run :
      (verify : Bytes → Bytes → Bool)
      → x.verify_signature_callback ≡ some verify
      → ((message sig : Bytes) → sign message ≡ some sig → verify message sig ≡ true)
      → (e : Entry) (t : Tar) (text : Bytes) {path : List Bytes} {s rest : Tar} {ar ar' : Reader}
        {found : Bool} {es : List Entry}
      → Run x version path s ar rest ar'
      → ((c : ChecksumStore) → read_raw text ar.manifest ≡ ok c → get_raw c ≡ text)
      → path ≡ []
      → s ≡ entry e t
      → e.body ≡ full text
      → HasNoManifest rest
      → sign_entries sign one_read overwrite s ≡ ok (found, es)
      → Run x version [] (archive es) ar rest (mark_signed ar')
  unfolding verify_parse_order eqb
  first-Run verify callback verifies e t text (stop f allowed handled signed) canonical same is_e
        whole p h =
      absurd (
        not_alone f.name f.name
          (subst (λ q. verify_parse_order (q ++ f.name ∷ []) ≡ some (f.name, true)) same allowed))
  first-Run verify callback verifies e t text {rest = rest} {ar = ar} {ar' = ar'}
        (next f {t = t'} {ar1 = ar1} allowed handled run) canonical same is_e whole p h =
      let allowed1 =
        subst (λ q. verify_parse_order (q ++ f.name ∷ []) ≡ some (f.name, false)) same allowed in
      let is = first_name f.name f.name false allowed1 in
      let same_entry : f ≡ e = cc (is_e) in
      let whole_f = ap (λ g. g.body) same_entry ∙ whole in
      let (sig, found', es', signed, there, es_is) =
        sign_entries_manifest sign one_read overwrite f t' text is whole_f h in
      let raw = manifest_text x version f text ar is whole_f canonical handled in
      let accepted = ap (λ m. verify m sig) raw ∙ verifies text sig signed in
      let behind =
        second-Run sign one_read overwrite x version run
          (ap (λ q. q ++ f.name ∷ []) same ∙ ap (λ n. n ∷ []) is) p there in
      let inner : Run x version (codes "manifest" ∷ [])
          (entry (stream_entry (codes "manifest.sig") sig) (archive es')) ar1 rest
          (mark_signed ar') =
        next (stream_entry (codes "manifest.sig") sig) refl
          (signature_token x version verify sig ar1 callback accepted) behind in
      subst (λ l. Run x version [] (archive l) ar rest (mark_signed ar')) (sym es_is)
        (next f allowed1 handled (
          subst
            (λ n.
              Run x version (n ∷ []) (entry (stream_entry (codes "manifest.sig") sig) (archive es'))
                ar1 rest (mark_signed ar'))
            (sym is) inner))

  -- An archive whose header the reader accepts, with a signature or without, is accepted as signed once
  -- `SignExisting` has signed it: the reader is the same but for its mark, and the rest of the archive
  -- is the same. For this the verification callback accepts what the key signs, the manifest's text is
  -- as its reader stores it, and no manifest or signature stands behind the header.
  pub read_v3_entries-sign_existing :
      (verify : Bytes → Bytes → Bool)
      → x.verify_signature_callback ≡ some verify
      → ((message sig : Bytes) → sign message ≡ some sig → verify message sig ≡ true)
      → (e : Entry) (t rest : Tar) (text : Bytes) (ar ar' : Reader) (es : List Entry)
      → e.body ≡ full text
      → ((c : ChecksumStore) → read_raw text ar.manifest ≡ ok c → get_raw c ≡ text)
      → HasNoManifest rest
      → read_v3_entries x version (entry e t) [] ar ≡ ok (ar', rest)
      → sign_existing sign one_read overwrite (entry e t) ≡ ok es
      → read_v3_entries x version (archive es) [] ar ≡ ok (mark_signed ar', rest)
  unfolding sign_existing
  read_v3_entries-sign_existing verify callback verifies e t rest text ar ar' es whole canonical p h
        signed =
      >>=-elim (sign_entries sign one_read overwrite (entry e t)) _ signed (λ r e1 h1.
        >>=-elim (guard r.0 manifest_not_found) _ h1 (λ u e2 h2. Run-read_v3_entries x version (
          subst (λ l. Run x version [] (archive l) ar rest (mark_signed ar')) (ok_injective h2)
            (first-Run verify callback verifies e t text
              (read_v3_entries-Run x version (entry e t) [] ar h) canonical refl refl whole p e1))))
