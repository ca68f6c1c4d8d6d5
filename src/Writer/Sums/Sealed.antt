-- ===== src/Writer/Sums/Sealed.antt =====
-- What `calcDataHash` of awriter/writer.go puts into a manifest.
use mender_artifact.Prelude.{
  ℕ, suc, Bool, true, false, map, List, [], ◌∷◌, Option, none, some, ◌≡◌, inl, inr, sym, ap, ◌∙◌,
  arith, Bytes, eqb_iff, All, Option-cases,
}
use mender_artifact.Prelude.Result.{ok, >>=-elim, ok_injective, or_err, or_err-eq-ok}
use mender_artifact.Prelude.Dict.{lookup, lookup-insert, bytes_eq}
use mender_artifact.Prelude.FilePath.{base, join}
use mender_artifact.Artifact.ChecksumStore.{ChecksumStore, add}
use mender_artifact.Artifact.Update.{update_path}
use mender_artifact.Handlers.{DataFile, Installer}
use mender_artifact.Handlers.Files.{get_update_files, get_update_augment_files}
use mender_artifact.Writer.{
  WriterEnvironment, Updates, lift_error, of_store, cannot_open, lift_error-eq-ok, sum_of,
}
use mender_artifact.Writer.Sums.{composers, files_of, hash_files, hash_payloads, calc_data_hash}

-- The manifest has this checksum for this name.
abbrev pub Sums : ChecksumStore → Bytes → Bytes → Type 0
Sums c file sum = lookup file c.sums ≡ some sum

-- What a manifest has, the other has too.
abbrev pub Grows : ChecksumStore → ChecksumStore → Type 0
Grows c c' = (j s : Bytes) → Sums c j s → Sums c' j s

pub add-Sums :
    (file sum : Bytes) (c : ChecksumStore) {c' : ChecksumStore}
    → add file sum c ≡ ok c'
    → Sums c' file sum
unfolding add
add-Sums file sum c {c'} h = elim (Option-cases (lookup file c.sums)) [
  | inl fresh ↦
      let same = ok_injective (rw (fresh, add) at h) in
      sym (ap (λ d. lookup file d.sums) same)
      ∙ ground (arith, lookup-insert file file sum c.sums, eqb_iff file file)
  | inr (s, old) ↦ cc (rw (old, add) at h)
]

-- `Add` refuses a name that is there.
pub add-Grows :
    (file sum : Bytes) (c : ChecksumStore) {c' : ChecksumStore}
    → add file sum c ≡ ok c'
    → Grows c c'
unfolding add
add-Grows file sum c {c'} h j s k = elim (Option-cases (lookup file c.sums)) [
  | inl fresh ↦
      let same = ok_injective (rw (fresh, add) at h) in
      sym (ap (λ d. lookup j d.sums) same)
      ∙ ground (arith, lookup-insert file j sum c.sums, eqb_iff file j, k, fresh)
  | inr (s, old) ↦ cc (rw (old, add) at h)
]

module _ (x : WriterEnvironment) where
  -- The file is there, and the manifest has its checksum under the payload's number.
  abbrev pub FileIsSealed : ChecksumStore → ℕ → DataFile → Type 0
  FileIsSealed c i f =
      (text : Bytes) × (x.read_file f.name ≡ some text)
      × Sums c (join (update_path i) (base f.name)) (sum_of x text)

  -- All files of the payloads, which are numbered from `i` on.
  abbrev pub AreSealed : ChecksumStore → ℕ → List Installer → Type 0
  AreSealed c i [] = Unit
  AreSealed c i (u ∷ us) = All (FileIsSealed c i) (get_update_files u) × AreSealed c (suc i) us

  -- All augmented files of the payloads that are not nil.
  abbrev pub AugmentsAreSealed : ChecksumStore → ℕ → List (Option Installer) → Type 0
  AugmentsAreSealed c i [] = Unit
  AugmentsAreSealed c i (none ∷ us) = AugmentsAreSealed c (suc i) us
  AugmentsAreSealed c i (some u ∷ us) =
      All (FileIsSealed c i) (get_update_augment_files u) × AugmentsAreSealed c (suc i) us

  -- What the manifest and the augmented manifest are about.
  abbrev pub PayloadsAreSealed : ChecksumStore → Bool → Updates → Type 0
  PayloadsAreSealed c false u = AreSealed c 0 u.updates
  PayloadsAreSealed c true u = AugmentsAreSealed c 0 u.augments

  -- The same along the loop of the code.
  abbrev AreHashed : ChecksumStore → Bool → ℕ → List (Option Installer) → Type 0
  AreHashed c augmented i [] = Unit
  AreHashed c augmented i (none ∷ us) = AreHashed c augmented (suc i) us
  AreHashed c augmented i (some u ∷ us) =
      All (FileIsSealed c i) (files_of augmented u) × AreHashed c augmented (suc i) us

  hash_files-Grows :
      (i : ℕ) (fs : List DataFile) (c : ChecksumStore) {c' : ChecksumStore}
      → hash_files x i fs c ≡ ok c'
      → Grows c c'
  unfolding hash_files
  hash_files-Grows i [] c {c'} h j s k = sym (ap (λ d. lookup j d.sums) (ok_injective h)) ∙ k
  hash_files-Grows i (f ∷ fs) c h j s k =
      >>=-elim (or_err (x.read_file f.name) (cannot_open f.name)) _ h (λ text e1 h1.
        let file = join (update_path i) (base f.name) in
        >>=-elim (lift_error of_store (add file (sum_of x text) c)) _ h1 (λ d e2 h2.
          hash_files-Grows i fs d h2 j s
            (add-Grows file (sum_of x text) c (lift_error-eq-ok of_store _ e2) j s k)))

  hash_files-IsSealed :
      (i : ℕ) (fs : List DataFile) (c : ChecksumStore) {c' : ChecksumStore}
      → hash_files x i fs c ≡ ok c'
      → All (FileIsSealed c' i) fs
  unfolding hash_files
  hash_files-IsSealed i [] c h = tt
  hash_files-IsSealed i (f ∷ fs) c h =
      >>=-elim (or_err (x.read_file f.name) (cannot_open f.name)) _ h (λ text e1 h1.
        let file = join (update_path i) (base f.name) in
        >>=-elim (lift_error of_store (add file (sum_of x text) c)) _ h1 (λ d e2 h2. (
          (
            text,
            or_err-eq-ok _ _ e1,
            hash_files-Grows i fs d h2 _ _
                (add-Sums file (sum_of x text) c (lift_error-eq-ok of_store _ e2)),
          ),
          hash_files-IsSealed i fs d h2,
        )))

  hash_payloads-Grows :
      (augmented : Bool) (i : ℕ) (us : List (Option Installer)) (c : ChecksumStore)
      {c' : ChecksumStore}
      → hash_payloads x augmented i us c ≡ ok c'
      → Grows c c'
  unfolding hash_payloads
  hash_payloads-Grows augmented i [] c h j s k =
      sym (ap (λ d. lookup j d.sums) (ok_injective h)) ∙ k
  hash_payloads-Grows augmented i (none ∷ us) c h j s k =
      hash_payloads-Grows augmented (suc i) us c h j s k
  hash_payloads-Grows augmented i (some u ∷ us) c h j s k =
      >>=-elim (hash_files x i (files_of augmented u) c) _ h (λ d e1 h1.
        hash_payloads-Grows augmented (suc i) us d h1 j s
          (hash_files-Grows i (files_of augmented u) c e1 j s k))

  -- What is sealed stays so while a manifest grows.
  Sealed-All :
      (i : ℕ) (fs : List DataFile) (c c' : ChecksumStore)
      → Grows c c'
      → All (FileIsSealed c i) fs
      → All (FileIsSealed c' i) fs
  Sealed-All i [] c c' g a = tt
  Sealed-All i (f ∷ fs) c c' g ((text, there, sum), a) =
      ((text, there, g _ _ sum), Sealed-All i fs c c' g a)

  hash_payloads-AreHashed :
      (augmented : Bool) (i : ℕ) (us : List (Option Installer)) (c : ChecksumStore)
      {c' : ChecksumStore}
      → hash_payloads x augmented i us c ≡ ok c'
      → AreHashed c' augmented i us
  unfolding hash_payloads
  hash_payloads-AreHashed augmented i [] c h = tt
  hash_payloads-AreHashed augmented i (none ∷ us) c h =
      hash_payloads-AreHashed augmented (suc i) us c h
  hash_payloads-AreHashed augmented i (some u ∷ us) c {c'} h =
      >>=-elim (hash_files x i (files_of augmented u) c) _ h (λ d e1 h1. (
        Sealed-All i (files_of augmented u) d c' (hash_payloads-Grows augmented (suc i) us d h1)
            (hash_files-IsSealed i (files_of augmented u) c e1),
        hash_payloads-AreHashed augmented (suc i) us d h1,
      ))

  AreHashed-AreSealed :
      (i : ℕ) (us : List Installer) (c : ChecksumStore)
      → AreHashed c false i (map some us)
      → AreSealed c i us
  AreHashed-AreSealed i [] c a = tt
  AreHashed-AreSealed i (u ∷ us) c a = (a.0, AreHashed-AreSealed (suc i) us c a.1)

  AreHashed-AugmentsAreSealed :
      (i : ℕ) (us : List (Option Installer)) (c : ChecksumStore)
      → AreHashed c true i us
      → AugmentsAreSealed c i us
  AreHashed-AugmentsAreSealed i [] c a = tt
  AreHashed-AugmentsAreSealed i (none ∷ us) c a = AreHashed-AugmentsAreSealed (suc i) us c a
  AreHashed-AugmentsAreSealed i (some u ∷ us) c a =
      (a.0, AreHashed-AugmentsAreSealed (suc i) us c a.1)

  pub Grows-AreSealed :
      (i : ℕ) (us : List Installer) (c c' : ChecksumStore)
      → Grows c c'
      → AreSealed c i us
      → AreSealed c' i us
  Grows-AreSealed i [] c c' g a = tt
  Grows-AreSealed i (u ∷ us) c c' g a =
      (Sealed-All i (get_update_files u) c c' g a.0, Grows-AreSealed (suc i) us c c' g a.1)

  pub Grows-AugmentsAreSealed :
      (i : ℕ) (us : List (Option Installer)) (c c' : ChecksumStore)
      → Grows c c'
      → AugmentsAreSealed c i us
      → AugmentsAreSealed c' i us
  Grows-AugmentsAreSealed i [] c c' g a = tt
  Grows-AugmentsAreSealed i (none ∷ us) c c' g a = Grows-AugmentsAreSealed (suc i) us c c' g a
  Grows-AugmentsAreSealed i (some u ∷ us) c c' g a = (
    Sealed-All i (get_update_augment_files u) c c' g a.0,
    Grows-AugmentsAreSealed (suc i) us c c' g a.1,
  )

  -- `calcDataHash` returns only if it has read every file of the payloads, the augmented files of those
  -- that are not nil if it is asked for them, and the manifest then has the checksum of each under its
  -- payload's number, and what it had before.
  pub calc_data_hash-AreSealed :
      (c : ChecksumStore) (u : Updates) (augmented : Bool) {c' : ChecksumStore}
      → calc_data_hash x c u augmented ≡ ok c'
      → PayloadsAreSealed c' augmented u × Grows c c'
  unfolding calc_data_hash
  calc_data_hash-AreSealed c u false {c'} h = (
    AreHashed-AreSealed 0 u.updates c' (hash_payloads-AreHashed false 0 (composers false u) c h),
    hash_payloads-Grows false 0 (composers false u) c h,
  )
  calc_data_hash-AreSealed c u true {c'} h = (
    AreHashed-AugmentsAreSealed 0 u.augments c'
        (hash_payloads-AreHashed true 0 (composers true u) c h),
    hash_payloads-Grows true 0 (composers true u) c h,
  )
