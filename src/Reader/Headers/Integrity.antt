-- ===== src/Reader/Headers/Integrity.antt =====
-- The loop of `readHeaderV3` of areader/reader.go against the manifest: the version and a header are
-- marked only when their bytes have the manifest's checksum.
use mender_artifact.Prelude.{
  List, [], ◌≡◌, inl, inr, refl, sym, ap, subst, ◌∙◌, arith, Bytes, codes,
}
use mender_artifact.Prelude.Result.{ok, Result-cases, ok_injective}
use mender_artifact.Artifact.ChecksumStore.{new_checksum_store}
use mender_artifact.Artifact.ChecksumStore.Vouched.{
  Vouched, Vouched-new, get_and_mark-Vouched, read_raw-Vouched,
}
use mender_artifact.Tar.{Body, Entry, Tar, In}
use mender_artifact.Reader.{Environment, Reader, Read}
use mender_artifact.Reader.Header.{bytes_of}
use mender_artifact.Reader.Installers.{assign_update_files}
use mender_artifact.Reader.Headers.{read_v3_entries, read_header_v3}
use mender_artifact.Reader.Headers.Cases.{
  Handled, manifest, signature, augment, header, handle_header_reads-Handled,
}
use mender_artifact.Reader.Headers.Run.{Run, stop, next, read_v3_entries-Run}

module _ (x : Environment) (version : Bytes) (Q : Bytes → Bytes → Type 0)
    (v : Q (codes "version") version) where
  handled-Vouched :
      {body : Body} {ar ar' : Reader} (name : Bytes)
      → Q name (bytes_of body)
      → Handled x version body ar ar' name
      → Vouched x.sha256 Q ar.manifest
      → Vouched x.sha256 Q ar'.manifest
  handled-Vouched {ar = ar} _ q (manifest text c sum b r m s k) h =
      get_and_mark-Vouched x.sha256 Q (codes "version") c
        (read_raw-Vouched x.sha256 Q text ar.manifest h r) m (version, v, s)
  handled-Vouched _ q (signature k a) h = subst (Vouched x.sha256 Q) (sym k) h
  handled-Vouched {ar = ar} _ q (augment text b r k) h =
      read_raw-Vouched x.sha256 Q text ar.manifest h r
  handled-Vouched {body} {ar} _ q (header name sum a b m s k) h =
      get_and_mark-Vouched x.sha256 Q name ar.manifest h m (bytes_of body, q, s)

  Run-Vouched :
      {path : List Bytes} {t rest : Tar} {ar ar' : Reader}
      → ((e : Entry) → In e t → Q e.name (bytes_of e.body))
      → Run x version path t ar rest ar'
      → Vouched x.sha256 Q ar.manifest
      → Vouched x.sha256 Q ar'.manifest
  Run-Vouched q (stop e allowed h s) u =
      handled-Vouched e.name (q e (inl refl))
        (handle_header_reads-Handled x version e.body _ _ e.name h) u
  Run-Vouched q (next e allowed h r) u =
      Run-Vouched (λ f i. q f (inr i)) r
        (handled-Vouched e.name (q e (inl refl))
          (handle_header_reads-Handled x version e.body _ _ e.name h) u)

Run-rest :
    {x : Environment} {version : Bytes} {path : List Bytes} {t rest : Tar} {ar ar' : Reader}
    (f : Entry)
    → Run x version path t ar rest ar'
    → In f rest
    → In f t
Run-rest f (stop e allowed h s) i = inr i
Run-rest f (next e allowed h r) i = inr (Run-rest f r i)

assign-manifest : (ar ar' : Reader) → assign_update_files ar ≡ ok ar' → ar'.manifest ≡ ar.manifest
unfolding assign_update_files
assign-manifest ar ar' h = ground arith

-- `readHeaderV3` is a run from an empty store; assigning the files leaves the manifest alone.
pub read_header_v3-entries :
    (x : Environment) (version : Bytes) (t rest : Tar) (ar ar' : Reader)
    → read_header_v3 x version t ar ≡ ok (ar', rest)
    → (ar1 : Reader) × (read_v3_entries x version t [] (record ar { manifest = new_checksum_store })
        ≡ ok (ar1, rest))
      × (ar'.manifest ≡ ar1.manifest)
unfolding read_header_v3
read_header_v3-entries x version t rest ar ar' h =
    elim (Result-cases
      (read_v3_entries x version t [] (record ar { manifest = new_checksum_store }))) [
        | inl ((ar1, rest1), read) ↦ elim (Result-cases (assign_update_files ar1)) [
          | inl (ar2, assigned) ↦
              let same : ◌≡◌ {A = Read (Reader × Tar)} (ok (ar2, rest1)) (ok (ar', rest)) =
                ground (arith, read, assigned) in
              let pair = ok_injective same in
              (
                ar1,
                read ∙ ap (λ p. ok (ar1, p.1)) pair,
                ap (λ p. p.0.manifest) (sym pair) ∙ assign-manifest ar1 ar2 assigned,
              )
          | inr (e, failed) ↦ ground (arith, read, failed)
        ]
        | inr (e, failed) ↦ ground (arith, failed)
      ]

pub read_header_v3-Vouched :
    (x : Environment) (version : Bytes) (Q : Bytes → Bytes → Type 0) (t rest : Tar)
    (ar ar' : Reader)
    → Q (codes "version") version
    → ((e : Entry) → In e t → Q e.name (bytes_of e.body))
    → read_header_v3 x version t ar ≡ ok (ar', rest)
    → Vouched x.sha256 Q ar'.manifest × ((f : Entry) → In f rest → In f t)
read_header_v3-Vouched x version Q t rest ar ar' v q h =
    let (ar1, read, same) = read_header_v3-entries x version t rest ar ar' h in
    let start : Reader = record ar { manifest = new_checksum_store } in
    let run : Run x version [] t start rest ar1 = read_v3_entries-Run x version t [] start read in
    (
      subst (Vouched x.sha256 Q) (sym same)
          (Run-Vouched x version Q v q run (Vouched-new x.sha256 Q)),
      λ f i. Run-rest f run i,
    )
