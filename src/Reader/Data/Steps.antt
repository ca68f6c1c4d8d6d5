-- ===== src/Reader/Data/Steps.antt =====
-- The steps of `readData` of areader/reader.go against the manifest: a data file is marked only when its
-- bytes have the manifest's checksum, whether the loop goes on behind the step or not.
use mender_artifact.Prelude.{
  Bool, false, ◌≢◌, ◌∙◌, ap, codes, Bool-cases, ℕ, true, List, some, ◌≡◌, inl, inr, refl, subst,
  Bytes, eqb, take, Option-cases,
}
use mender_artifact.Prelude.Result.{
  Result, err, ◌>>=◌, ◌>>◌, guard-eq-ok, >>=-elim, guard, ok, ok_injective,
}
use mender_artifact.Prelude.Decimal.{ℤ, pos, negsuc}
use mender_artifact.Prelude.Dict.{Dict, lookup, nat_eq}
use mender_artifact.Prelude.FilePath.{base, dir, join}
use mender_artifact.Artifact.Checksum.{hex_encode}
use mender_artifact.Artifact.ChecksumStore.{StoreError, ChecksumStore, get_and_mark}
use mender_artifact.Artifact.ChecksumStore.Vouched.{Vouched, get_and_mark-Vouched}
use mender_artifact.Artifact.Compressor.{Compressor, new_compressor_from_file_name}
use mender_artifact.Handlers.Files.{get_update_all_files}
use mender_artifact.Artifact.Update.{update_path}
use mender_artifact.Tar.{Body, Entry, Tar, entry, eof, broken, In}
use mender_artifact.Handlers.{Installer, DataFile}
use mender_artifact.Reader.{
  Environment, Read, ReaderError, lift, of_path, of_store, wrong_name, storer_failed,
  archive_broken, no_compressor_reader, no_data_file, forbidden_characters, data_checksum,
}
use mender_artifact.Reader.Artifact.{file_info_name}
use mender_artifact.Reader.Header.{bytes_of}
use mender_artifact.Reader.Data.{
  Outcome, done, failed, at_end, Step, on_outcome, go_on, not_opened, behind_step, get_data_file,
  has_data_file, matches_file_name, UpdateStorer, install_data_file, read_and_install_data_files,
  read_and_install, install_number, read_data_file, read_data,
}

module _ (x : Environment) (Q : Bytes → Bytes → Type 0) where
  -- `Q` allows the bytes that this storer reads of this file of this payload, and the storer's error,
  -- if there is one, has not the cause `io.EOF`.
  abbrev pub Allows : UpdateStorer → ℕ → Entry → Type 0
  Allows storer number e =
      Q (join (update_path number) (file_info_name e))
        (take (storer.store (file_info_name e) e.body).0 (bytes_of e.body))
      × ((storer.store (file_info_name e) e.body).1 ≢ at_end)

  -- The same of every file in a data archive of this entry.
  abbrev pub AllowsInside : (Installer → ℕ → UpdateStorer) → Entry → Type 0
  AllowsInside storers e =
      (comp : Compressor) (t : Tar) (i : Installer) (number : ℕ) (f : Entry)
      → x.open_tar comp e.body ≡ some t
      → In f t
      → Allows (storers i number) number f

  -- The step, whether the loop goes on behind it or not, leaves such a store.
  abbrev Keeps : Step → Type 0
  Keeps m = (more : Bool) (c' : ChecksumStore) → m ≡ ok (more, c') → Vouched x.sha256 Q c'

  ok-Keeps : (more : Bool) (c : ChecksumStore) → Vouched x.sha256 Q c → Keeps (ok (more, c))
  ok-Keeps more c v m c' h = subst (Vouched x.sha256 Q) (ap (λ r. r.1) (ok_injective h)) v

  err-Keeps : (e : ReaderError) → Keeps (err e)
  err-Keeps e more c' h = cc (h)

  on_outcome-Keeps :
      (o : Outcome) (c : ChecksumStore) (next : Step)
      → Vouched x.sha256 Q c
      → Keeps next
      → Keeps (on_outcome o c next)
  on_outcome-Keeps done c next v k = k
  on_outcome-Keeps failed c next v k = err-Keeps storer_failed
  on_outcome-Keeps at_end c next v k = ok-Keeps false c v

  go_on-Keeps :
      (m : Step) (next : ChecksumStore → Step)
      → Keeps m
      → ((c : ChecksumStore) → Vouched x.sha256 Q c → Keeps (next c))
      → Keeps (m >>= λ r. go_on r next)
  go_on-Keeps (err e) next k later = err-Keeps e
  go_on-Keeps (ok (true, c)) next k later = later c (k true c refl)
  go_on-Keeps (ok (false, c)) next k later = ok-Keeps false c (k false c refl)

  outcome_done :
      (o : Outcome) (c : ChecksumStore) (next : Step) {r : Bool × ChecksumStore}
      → o ≢ at_end
      → on_outcome o c next ≡ ok r
      → next ≡ ok r
  outcome_done done c next n h = h
  outcome_done failed c next n h = cc (h)
  outcome_done at_end c next n h = absurd (n refl)

  lift_store-eq-ok :
      {A : Type 0} (m : Result StoreError A) {a : A} → lift of_store m ≡ ok a → m ≡ ok a
  lift_store-eq-ok (ok b) h = ap ok (ok_injective h)
  lift_store-eq-ok (err e) h = cc (h)

  checked_data :
      (storer : UpdateStorer) (files : List DataFile) (number : ℕ) (e : Entry)
      (c c' : ChecksumStore) (more : Bool)
      → (storer.store (file_info_name e) e.body).1 ≢ at_end
      → install_data_file x storer files number e c ≡ ok (more, c')
      → (sum : Bytes) × (get_and_mark (join (update_path number) (file_info_name e)) c
          ≡ ok (sum, c'))
        × (eqb sum (
              hex_encode
                (x.sha256 (take (storer.store (file_info_name e) e.body).0 (bytes_of e.body))))
            ≡ true)
  unfolding install_data_file
  checked_data storer files number e c c' more ends h =
      >>=-elim (guard (has_data_file (get_data_file files e.name)) (no_data_file e.name)) _ h
        (λ u e1 h1.
          >>=-elim (guard (matches_file_name (base e.name)) forbidden_characters) _ h1 (λ w e2 h2.
            >>=-elim (lift of_store (get_and_mark (join (update_path number) (file_info_name e)) c))
              _ h2
              (λ r e3 h3.
                let sum = r.0 in
                let n = (storer.store (file_info_name e) e.body).0 in
                let hash = hex_encode (x.sha256 (take n (bytes_of e.body))) in
                let compared =
                  outcome_done (storer.store (file_info_name e) e.body).1 r.1
                    (guard (eqb sum hash) data_checksum >> ok (true, r.1)) ends h3 in
                >>=-elim (guard (eqb sum hash) data_checksum) _ compared (λ v e4 h4.
                  let same : r.1 ≡ c' = ap (λ p. p.1) (ok_injective h4) in
                  (
                    sum,
                    lift_store-eq-ok _ e3 ∙ ap (λ d. ok (sum, d)) same,
                    guard-eq-ok (eqb sum hash) data_checksum e4,
                  )))))

  install-Keeps :
      (storer : UpdateStorer) (files : List DataFile) (number : ℕ) (e : Entry) (c : ChecksumStore)
      → Allows storer number e
      → Vouched x.sha256 Q c
      → Keeps (install_data_file x storer files number e c)
  install-Keeps storer files number e c q v more c' h =
      let (sum, marked, same) = checked_data storer files number e c c' more q.1 h in
      get_and_mark-Vouched x.sha256 Q _ c v marked
        (take (storer.store (file_info_name e) e.body).0 (bytes_of e.body), q.0, same)

  files-Keeps :
      (storer : UpdateStorer) (files : List DataFile) (number : ℕ) (t : Tar) (c : ChecksumStore)
      → ((f : Entry) → In f t → Allows storer number f)
      → Vouched x.sha256 Q c
      → Keeps (read_and_install_data_files x storer files number t c)
  unfolding read_and_install_data_files
  files-Keeps storer files number eof c q v = ok-Keeps true c v
  files-Keeps storer files number broken c q v = err-Keeps archive_broken
  files-Keeps storer files number (entry e t) c q v =
      go_on-Keeps (install_data_file x storer files number e c)
        (λ d. read_and_install_data_files x storer files number t d)
        (install-Keeps storer files number e c (q e (inl refl)) v)
        (λ d w. files-Keeps storer files number t d (λ f i. q f (inr i)) w)

  not_opened-Keeps :
      (comp : Compressor) (body : Body) (c : ChecksumStore)
      → Vouched x.sha256 Q c
      → Keeps (not_opened x comp body c)
  unfolding not_opened
  not_opened-Keeps comp body c v = elim (Bool-cases (x.opens_at_end comp body)) [
    | inl ends ↦ rw ends (ok-Keeps false c v)
    | inr no_end ↦ rw no_end (err-Keeps no_compressor_reader)
  ]

  archive-Keeps :
      (storer : UpdateStorer) (comp : Compressor) (body : Body) (i : Installer) (number : ℕ)
      (c : ChecksumStore)
      → ((t : Tar) → x.open_tar comp body ≡ some t → (f : Entry) → In f t → Allows storer number f)
      → Vouched x.sha256 Q c
      → Keeps (read_and_install x storer comp body i number c)
  unfolding read_and_install
  archive-Keeps storer comp body i number c q v = elim (Option-cases (x.open_tar comp body)) [
    | inl closed ↦ rw (closed, read_and_install) (not_opened-Keeps comp body c v)
    | inr (t, there) ↦
        let files = get_update_all_files i in
        rw (there, read_and_install)
          (on_outcome-Keeps storer.prepare c _ v (
            go_on-Keeps (read_and_install_data_files x storer files number t c)
              (λ d. on_outcome storer.finish d (ok (true, d)))
              (files-Keeps storer files number t c (q t there) v)
              (λ d w. on_outcome-Keeps storer.finish d (ok (true, d)) w (ok-Keeps true d w))))
  ]

  number-Keeps :
      (storers : Installer → ℕ → UpdateStorer) (m : Dict ℕ Installer) (comp : Compressor)
      (e : Entry) (number : ℤ) (c : ChecksumStore)
      → AllowsInside storers e
      → Vouched x.sha256 Q c
      → Keeps (install_number x storers m comp e.body number c)
  unfolding install_number
  number-Keeps storers m comp e (negsuc n) c q v = ok-Keeps true c v
  number-Keeps storers m comp e (pos n) c q v = elim (Option-cases (lookup n m)) [
    | inl absent ↦ rw (absent, install_number) (ok-Keeps true c v)
    | inr (i, there) ↦
        rw (there, install_number)
          (archive-Keeps (storers i n) comp e.body i n c (λ t opens f. q comp t i n f opens) v)
  ]

  data_file-Keeps :
      (storers : Installer → ℕ → UpdateStorer) (m : Dict ℕ Installer) (e : Entry)
      (c : ChecksumStore)
      → AllowsInside storers e
      → Vouched x.sha256 Q c
      → Keeps (read_data_file x storers m e c)
  unfolding read_data_file
  data_file-Keeps storers m e c q v more c' h =
      >>=-elim (guard (eqb (dir e.name) (codes "data")) wrong_name) _ h (λ u e1 h1.
        >>=-elim (lift of_path _) _ h1 (λ number e2 h2.
          number-Keeps storers m (new_compressor_from_file_name e.name) e number c q v more c' h2))

  behind_step-Vouched :
      (more : Bool) (c : ChecksumStore) (next : ChecksumStore → Read ChecksumStore)
      {c' : ChecksumStore}
      → Vouched x.sha256 Q c
      → ((d : ChecksumStore) → Vouched x.sha256 Q d → next d ≡ ok c' → Vouched x.sha256 Q c')
      → behind_step x (more, c) next ≡ ok c'
      → Vouched x.sha256 Q c'
  unfolding behind_step
  behind_step-Vouched true c next v later h = later c v h
  behind_step-Vouched false c next v later h = subst (Vouched x.sha256 Q) (ok_injective h) v

  pub data-Vouched :
      (storers : Installer → ℕ → UpdateStorer) (m : Dict ℕ Installer) (t : Tar) (c : ChecksumStore)
      {c' : ChecksumStore}
      → ((e : Entry) → In e t → AllowsInside storers e)
      → Vouched x.sha256 Q c
      → read_data x storers m t c ≡ ok c'
      → Vouched x.sha256 Q c'
  unfolding read_data
  data-Vouched storers m eof c q v h = subst (Vouched x.sha256 Q) (ok_injective h) v
  data-Vouched storers m broken c q v h = cc
  data-Vouched storers m (entry e t) c q v h =
      >>=-elim (read_data_file x storers m e c) _ h (λ r first later.
        behind_step-Vouched r.0 r.1 (λ d. read_data x storers m t d)
          (data_file-Keeps storers m e c (q e (inl refl)) v r.0 r.1 first)
          (λ d w g. data-Vouched storers m t d (λ f i. q f (inr i)) w g) later)
