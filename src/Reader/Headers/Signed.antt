-- ===== src/Reader/Headers/Signed.antt =====
-- When `readHeaderV3` of areader/reader.go accepts an archive that should be signed.
use mender_artifact.Prelude.{
  Bool, true, false, List, [], ◌∷◌, ◌++◌, some, ◌≡◌, inl, inr, refl, sym, ap, ◌∙◌, arith, Bytes,
  codes, eqb, eqb_iff, Option-cases,
}
use mender_artifact.Prelude.Result.{ok}
use mender_artifact.Artifact.ChecksumStore.{ChecksumStore, get_raw, read_raw}
use mender_artifact.Artifact.ChecksumStore.Invariant.{get_and_mark-eq-ok}
use mender_artifact.Tar.{Body, full, cut, ended, Entry, Tar, entry}
use mender_artifact.Reader.{Environment, Reader}
use mender_artifact.Reader.Grammar.Shape.{not_signature, first_name, not_alone}
use mender_artifact.Reader.Headers.{signature_read_and_verify, read_v3_entries}
use mender_artifact.Reader.Headers.Cases.{
  Handled, manifest, signature, augment, header, handle_header_reads-Handled,
}
use mender_artifact.Reader.Headers.Run.{Run, stop, next, read_v3_entries-Run}

module _ (x : Environment) (version : Bytes) where
  handled-is_signed :
      {body : Body} {ar ar' : Reader} (name : Bytes)
      → Handled x version body ar ar' name
      → eqb name (codes "manifest.sig") ≡ false
      → ar'.is_signed ≡ ar.is_signed
  unfolding eqb
  handled-is_signed _ (manifest text c sum b r m s k) h = k
  handled-is_signed _ (signature k v) h = cc
  handled-is_signed _ (augment text b r k) h = k
  handled-is_signed _ (header name sum a b m s k) h = k

  later-is_signed :
      (a b : Bytes) (q : List Bytes) {t rest : Tar} {ar ar' : Reader}
      → Run x version (a ∷ b ∷ q) t ar rest ar'
      → ar'.is_signed ≡ ar.is_signed
  later-is_signed a b q (stop e allowed h s) =
      handled-is_signed e.name (handle_header_reads-Handled x version e.body _ _ e.name h)
        (not_signature a b q e.name e.name true allowed)
  later-is_signed a b q (next e allowed h r) =
      later-is_signed a b (q ++ e.name ∷ []) r
      ∙ handled-is_signed e.name (handle_header_reads-Handled x version e.body _ _ e.name h)
          (not_signature a b q e.name e.name false allowed)

  Run-is_signed :
      {path : List Bytes} {t rest : Tar} {ar ar' : Reader}
      → x.should_be_signed ≡ true
      → Run x version path t ar rest ar'
      → ar'.is_signed ≡ true
  Run-is_signed must (stop e allowed h s) = ground arith
  Run-is_signed must (next e allowed h r) = Run-is_signed must r

  -- Two entries were read, the manifest first, and the second settled whether a signature was seen.
  Second : Tar → Reader → Reader → Type 0
  Second t ar ar' =
      (m : Entry) × (s : Entry) × (t' : Tar) × (ar1 : Reader) × (ar2 : Reader) × (t
        ≡ entry m (entry s t'))
      × (m.name ≡ codes "manifest")
      × Handled x version m.body ar ar1 m.name
      × Handled x version s.body ar1 ar2 s.name
      × (ar'.is_signed ≡ ar2.is_signed)

  second_lem : {t rest : Tar} {ar ar' : Reader} → Run x version [] t ar rest ar' → Second t ar ar'
  unfolding Second
  second_lem (stop m allowed h s) = absurd (not_alone m.name m.name allowed)
  second_lem (next m allowed h (stop s allowed' h' c)) = (
    m,
    s,
    _,
    _,
    _,
    refl,
    first_name m.name m.name false allowed,
    handle_header_reads-Handled x version m.body _ _ m.name h,
    handle_header_reads-Handled x version s.body _ _ s.name h',
    refl,
  )
  second_lem (next m allowed h (next s allowed' h' r)) = (
    m,
    s,
    _,
    _,
    _,
    refl,
    first_name m.name m.name false allowed,
    handle_header_reads-Handled x version m.body _ _ m.name h,
    handle_header_reads-Handled x version s.body _ _ s.name h',
    later-is_signed m.name s.name [] r,
  )

  -- The archive begins with a manifest and a signature of its text, which the callback accepted.
  pub record StartsSigned (t : Tar) (c0 : ChecksumStore) : Type 0 where
    pub manifest_entry : Entry
    pub signature_entry : Entry
    pub behind : Tar
    pub text : Bytes
    pub store : ChecksumStore
    pub sig : Bytes
    pub verify : Bytes → Bytes → Bool
    pub begins : t ≡ entry manifest_entry (entry signature_entry behind)
    pub manifest_name : manifest_entry.name ≡ codes "manifest"
    pub signature_name : signature_entry.name ≡ codes "manifest.sig"
    pub manifest_body : manifest_entry.body ≡ full text
    pub signature_body : signature_entry.body ≡ full sig
    pub manifest_read : read_raw text c0 ≡ ok store
    pub callback : x.verify_signature_callback ≡ some verify
    pub accepted : verify (get_raw store) sig ≡ true

  pub verified_lem :
      (body : Body) (message : Bytes)
      → x.should_be_signed ≡ true
      → signature_read_and_verify x body message ≡ ok tt
      → (verify : Bytes → Bytes → Bool) × (sig : Bytes) × (x.verify_signature_callback
          ≡ some verify)
        × (body ≡ full sig)
        × (verify message sig ≡ true)
  unfolding signature_read_and_verify
  verified_lem (full b) message must h = elim (Option-cases x.verify_signature_callback) [
    | inl absent ↦ ground arith
    | inr (verify, there) ↦ (verify, b, there, refl, ground (arith, there))
  ]
  verified_lem (cut b) message must h = elim (Option-cases x.verify_signature_callback) [
    | inl absent ↦ ground arith
    | inr (verify, there) ↦ ground (arith, there)
  ]
  verified_lem (ended b) message must h = elim (Option-cases x.verify_signature_callback) [
    | inl absent ↦ ground arith
    | inr (verify, there) ↦ ground (arith, there)
  ]

  manifest_handled :
      {body : Body} {ar ar' : Reader} (name : Bytes)
      → name ≡ codes "manifest"
      → Handled x version body ar ar' name
      → (text : Bytes) × (c : ChecksumStore) × (body ≡ full text)
        × (read_raw text ar.manifest ≡ ok c)
        × (get_raw ar'.manifest ≡ get_raw c)
        × (ar'.is_signed ≡ ar.is_signed)
  manifest_handled _ e (manifest text c sum b r m s k) =
      (text, c, b, r, ap get_raw (get_and_mark-eq-ok (codes "version") c m).1, k)
  manifest_handled _ e (signature k v) = cc
  manifest_handled _ e (augment text b r k) = cc
  manifest_handled _ e (header name sum a b m s k) = ground (arith, eqb_iff name (codes "manifest"))

  signature_handled :
      {body : Body} {ar ar' : Reader} (name : Bytes)
      → ar.is_signed ≡ false
      → ar'.is_signed ≡ true
      → Handled x version body ar ar' name
      → (name ≡ codes "manifest.sig")
        × (signature_read_and_verify x body (get_raw ar.manifest) ≡ ok tt)
  signature_handled _ u v (manifest text c sum b r m s k) = cc
  signature_handled _ u v (signature k h) = (refl, h)
  signature_handled _ u v (augment text b r k) = cc
  signature_handled _ u v (header name sum a b m s k) = cc

  -- If an archive should be signed and the loop of `readHeaderV3` accepts it with a fresh reader,
  -- then its first two entries are a manifest and a signature, and the callback accepted that
  -- signature for the text of the store into which the manifest was read.
  pub read_v3_entries-StartsSigned :
      (t : Tar) (ar ar' : Reader) (rest : Tar)
      → x.should_be_signed ≡ true
      → ar.is_signed ≡ false
      → read_v3_entries x version t [] ar ≡ ok (ar', rest)
      → StartsSigned t ar.manifest
  unfolding Second
  read_v3_entries-StartsSigned t ar ar' rest must fresh h =
      let run = read_v3_entries-Run x version t [] ar h in
      let (m, s, t', ar1, ar2, begins, m_name, m_handled, s_handled, kept) = second_lem run in
      let (text, c, m_body, m_read, raw, unsigned) = manifest_handled m.name m_name m_handled in
      let (s_name, checked) =
        signature_handled s.name (unsigned ∙ fresh) (sym kept ∙ Run-is_signed must run) s_handled in
      let (verify, sig, there, s_body, good) = verified_lem s.body _ must checked in
      record {
        manifest_entry = m;
        signature_entry = s;
        behind = t';
        text = text;
        store = c;
        sig = sig;
        verify = verify;
        begins = begins;
        manifest_name = m_name;
        signature_name = s_name;
        manifest_body = m_body;
        signature_body = s_body;
        manifest_read = m_read;
        callback = there;
        accepted = ap (λ r. verify r sig) (sym raw) ∙ good;
      }
