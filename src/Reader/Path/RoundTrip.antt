-- ===== src/Reader/Path/RoundTrip.antt =====
-- The reader finds the number that artifact/update.go has put into a path.
use mender_artifact.Prelude.{
  ℕ, ◌<◌, ◌-◌, [], ◌∷◌, ◌++◌, ◌≡◌, refl, arith, Bytes, codes, Lacks, All-append, trim_suffix,
  has_suffix, length, length-append, drop-append, take-append, eqb, eqb_refl,
}
use mender_artifact.Prelude.Result.{ok}
use mender_artifact.Prelude.Decimal.{pos, four, format_padded-four, atoi-four}
use mender_artifact.Prelude.FilePath.{join, join_parts}
use mender_artifact.Prelude.FilePath.Plain.{
  IsPlain, join-IsPlain, join_three, split-join_parts, base-join_parts,
}
use mender_artifact.Artifact.Update.{update_path, update_header_path, update_data_path}
use mender_artifact.Reader.Path.{
  get_update_no_from_header_path, get_update_no_from_data_path, get_update_no_from_manifest_path,
}

four-IsPlain : (n : ℕ) → IsPlain (four n)
unfolding four
four-IsPlain n = (cc, omega arith, cc, cc)

data-IsPlain : IsPlain (codes "data")
data-IsPlain = (cc, omega arith, ground arith, ground arith)

headers-IsPlain : IsPlain (codes "headers")
headers-IsPlain = (cc, omega arith, ground arith, ground arith)

four_digits : (n : ℕ) → length (four n) ≡ 4
unfolding four
four_digits n = refl

-- The path of a file in the manifest gives back its payload's number and its name.
pub get_update_no_from_manifest_path-update_path :
    (n : ℕ) (file : Bytes)
    → n < 10000
    → IsPlain file
    → get_update_no_from_manifest_path (join (update_path n) file) ≡ ok (pos n, file)
unfolding get_update_no_from_manifest_path update_path eqb
get_update_no_from_manifest_path-update_path n file h w =
    rw
      (
        format_padded-four n h,
        join_three (codes "data") (four n) file data-IsPlain (four-IsPlain n) w,
        split-join_parts (codes "data") (four n ∷ file ∷ [])
            (data-IsPlain, (four-IsPlain n, (w, tt))),
      )
      (rw (four_digits, atoi-four n h))

-- The path of a file in the header gives back its payload's number.
pub get_update_no_from_header_path-update_header_path :
    (n : ℕ) (file : Bytes)
    → n < 10000
    → IsPlain file
    → get_update_no_from_header_path (join (update_header_path n) file) ≡ ok (pos n)
unfolding get_update_no_from_header_path update_header_path
get_update_no_from_header_path-update_header_path n file h w =
    rw
      (
        format_padded-four n h,
        join_three (codes "headers") (four n) file headers-IsPlain (four-IsPlain n) w,
        split-join_parts (codes "headers") (four n ∷ file ∷ [])
            (headers-IsPlain, (four-IsPlain n, (w, tt))),
      )
      (rw (atoi-four n h))

-- A suffix that was put behind a text is cut off again.
trim_suffix-append : (s t : Bytes) → trim_suffix (s ++ t) t ≡ s
unfolding trim_suffix has_suffix
trim_suffix-append s t =
    let e : length (s ++ t) - length t ≡ length s = omega (arith, length-append s t) in
    rw (e, drop-append s t, take-append s t) (ground (arith, eqb_refl t, length-append s t))

data_path_shape :
    (n : ℕ) (extension : Bytes)
    → join_parts (codes "data" ∷ (four n ++ codes ".tar") ∷ []) ++ extension
      ≡ join_parts (codes "data" ∷ (four n ++ (codes ".tar" ++ extension)) ∷ [])
unfolding join_parts four
data_path_shape n extension = refl

four_digits-IsPlain : (n : ℕ) (rest : Bytes) → Lacks b'/' rest → IsPlain (four n ++ rest)
unfolding four
four_digits-IsPlain n rest h = (cc, All-append _ (four n) rest (omega arith) h, cc, cc)

-- The name of a payload's data file, with the compressor's extension, gives back its number.
pub get_update_no_from_data_path-update_data_path :
    (n : ℕ) (extension : Bytes)
    → n < 10000
    → Lacks b'/' extension
    → get_update_no_from_data_path extension (update_data_path n ++ extension) ≡ ok (pos n)
unfolding get_update_no_from_data_path update_data_path
get_update_no_from_data_path-update_data_path n extension h w =
    let named = four_digits-IsPlain n (codes ".tar") (omega arith) in
    let whole =
      four_digits-IsPlain n (codes ".tar" ++ extension)
        (All-append _ (codes ".tar") extension (omega arith) w) in
    rw
      (
        format_padded-four n h,
        join-IsPlain (codes "data") (four n ++ codes ".tar") data-IsPlain named,
      )
      (rw (data_path_shape, base-join_parts (codes "data") _ data-IsPlain whole)
        (rw (trim_suffix-append (four n) (codes ".tar" ++ extension), atoi-four n h)))
