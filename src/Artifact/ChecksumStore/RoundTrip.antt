-- ===== src/Artifact/ChecksumStore/RoundTrip.antt =====
-- `ReadRaw` of artifact/checksum.go reads back what `GetRaw` returns.
use mender_artifact.Prelude.{
  Bool, false, [], ◌∷◌, ◌++◌, none, ◌≡◌, ◌≢◌, refl, sym, ap, fun_ext, ◌∙◌, ◌⊎◌, inl, inr, arith,
  Bytes, All, All-append, eqb_iff, is_space, append_assoc, append-nil,
}
use mender_artifact.Prelude.Result.{Result, ok, ◌>>=◌}
use mender_artifact.Prelude.Dict.{Dict, lookup, lookup-append, keys, insert-append, bytes_eq}
use mender_artifact.Artifact.ChecksumStore.{
  ChecksumStore, StoreError, add, manifest_line, read_checksums, read_lines, read_raw, get_raw,
  new_checksum_store,
}
use mender_artifact.Artifact.ChecksumStore.Words.{
  IsWord, trim_space-manifest_line, split-word, split_last_word,
}
use mender_artifact.Artifact.ChecksumStore.Invariant.{Distinct, IsValid, render}

read_checksums-manifest_line :
    (sum file : Bytes) (c : ChecksumStore)
    → IsWord sum
    → IsWord file
    → read_checksums (manifest_line sum file) c ≡ add file sum c
unfolding read_checksums
read_checksums-manifest_line [] file c ws wf = absurd (ws.0 refl)
read_checksums-manifest_line (a ∷ sum) file c ws wf =
    rw
      (
        trim_space-manifest_line (a ∷ sum) file ws wf,
        split-word (a ∷ sum) file [] ws.1,
        split_last_word file [] wf.1,
      )
      (ground arith)

read_lines-line :
    (s rest line : Bytes) (c : ChecksumStore)
    → All (λ b. is_space b ≡ false ⊎ (b ≡ b' ')) s
    → read_lines (s ++ b'\n' ∷ rest) line c
      ≡ (read_checksums (line ++ (s ++ b'\n' ∷ [])) c >>= (λ d. read_lines rest [] d))
unfolding read_lines
read_lines-line [] rest line c h = ground arith
read_lines-line (b ∷ s) rest line c h = ground (
  arith,
  h.0,
  read_lines-line s rest (line ++ b ∷ []) c h.1,
  append_assoc line (b ∷ []) (s ++ b'\n' ∷ []),
)

-- Every file of the entries and every sum is a word.
abbrev pub AllWords : Dict Bytes Bytes → Type 0
AllWords [] = Unit
AllWords ((file, sum) ∷ m) = IsWord file × IsWord sum × AllWords m

-- The entries, added one after the other.
add_all : Dict Bytes Bytes → ChecksumStore → Result StoreError ChecksumStore
add_all [] c = ok c
add_all ((file, sum) ∷ m) c = add file sum c >>= (λ d. add_all m d)

letters :
    (s : Bytes) → All (λ b. is_space b ≡ false) s → All (λ b. is_space b ≡ false ⊎ (b ≡ b' ')) s
letters [] h = tt
letters (b ∷ s) h = (inl h.0, letters s h.1)

manifest_line-shape :
    (sum file rest : Bytes)
    → manifest_line sum file ++ rest ≡ (sum ++ (b' ' ∷ b' ' ∷ file)) ++ b'\n' ∷ rest
unfolding manifest_line
manifest_line-shape sum file rest = simp append_assoc

manifest_line_end :
    (sum file : Bytes) → (sum ++ (b' ' ∷ b' ' ∷ file)) ++ b'\n' ∷ [] ≡ manifest_line sum file
unfolding manifest_line
manifest_line_end sum file = simp append_assoc

read_lines-render :
    (m : Dict Bytes Bytes) (c : ChecksumStore)
    → AllWords m
    → read_lines (render m) [] c ≡ add_all m c
unfolding render add_all
read_lines-render [] c w = unfold read_lines in refl
read_lines-render ((file, sum) ∷ m) c (wf, ws, w) =
    rw
      (
        manifest_line-shape sum file (render m),
        read_lines-line (sum ++ (b' ' ∷ b' ' ∷ file)) (render m) [] c
            (All-append _ sum _ (letters sum ws.1) (inr refl, (inr refl, letters file wf.1))),
      )
      (rw (
        manifest_line_end,
        read_checksums-manifest_line sum file c ws wf,
        fun_ext (λ d. read_lines-render m d w),
      ))

-- The marks of entries that were just added.
abbrev pub unmarked : Dict Bytes Bytes → Dict Bytes Bool
unmarked [] = []
unmarked ((file, sum) ∷ m) = (file, false) ∷ unmarked m

-- None of the entries' files is in the store.
abbrev Fresh : Dict Bytes Bytes → ChecksumStore → Type 0
Fresh m c = All (λ k. (lookup k c.sums ≡ none) × (lookup k c.marked ≡ none)) (keys m)

Fresh-append :
    (file sum raw : Bytes) (c : ChecksumStore) (m : Dict Bytes Bytes)
    → All (λ y. y ≢ file) (keys m)
    → Fresh m c
    → Fresh m (record {
      raw = raw;
      sums = c.sums ++ (file, sum) ∷ [];
      marked = c.marked ++ (file, false) ∷ [];
    })
unfolding lookup
Fresh-append file sum raw c [] d f = tt
Fresh-append file sum raw c ((k, s) ∷ m) d f = (
  (
    ground (arith, lookup-append k c.sums ((file, sum) ∷ []), eqb_iff file k, f.0),
    ground (arith, lookup-append k c.marked ((file, false) ∷ []), eqb_iff file k, f.0),
  ),
  Fresh-append file sum raw c m d.1 f.1,
)

add_fresh :
    (file sum : Bytes) (c : ChecksumStore)
    → lookup file c.sums ≡ none
    → lookup file c.marked ≡ none
    → add file sum c
      ≡ ok (record {
        raw = c.raw ++ manifest_line sum file;
        sums = c.sums ++ (file, sum) ∷ [];
        marked = c.marked ++ (file, false) ∷ [];
      })
unfolding add
add_fresh file sum c f g =
    ground (arith, insert-append file sum c.sums f, insert-append file false c.marked g)

add_all_lem :
    (m : Dict Bytes Bytes) (c : ChecksumStore)
    → Distinct (keys m)
    → Fresh m c
    → add_all m c
      ≡ ok (record { raw = c.raw ++ render m; sums = c.sums ++ m; marked = c.marked ++ unmarked m })
unfolding add_all render
add_all_lem [] c d f = ground (arith, append-nil c.raw, append-nil c.sums, append-nil c.marked)
add_all_lem ((file, sum) ∷ m) c d f = rw (add_fresh file sum c f.0.0 f.0.1) (
    add_all_lem m _ d.1 (Fresh-append file sum (c.raw ++ manifest_line sum file) c m d.0 f.1)
    ∙ ground (
      arith,
      append_assoc c.raw (manifest_line sum file) (render m),
      append_assoc c.sums ((file, sum) ∷ []) m,
      append_assoc c.marked ((file, false) ∷ []) (unmarked m),
    ))

Fresh-new : (m : Dict Bytes Bytes) → Fresh m new_checksum_store
unfolding lookup
Fresh-new [] = tt
Fresh-new ((k, s) ∷ m) = ((refl, refl), Fresh-new m)

-- Reading the text of a well-formed store into a new one gives the store back with no file marked,
-- if every file name and every checksum is a word: not empty, of ASCII characters that are no white
-- space.
pub read_raw-get_raw :
    (c : ChecksumStore)
    → IsValid c
    → AllWords c.sums
    → read_raw (get_raw c) new_checksum_store ≡ ok (record c { marked = unmarked c.sums })
unfolding read_raw
read_raw-get_raw c v w =
    ap (λ t. read_lines t [] new_checksum_store) v.rendered
    ∙ read_lines-render c.sums new_checksum_store w
    ∙ add_all_lem c.sums new_checksum_store v.distinct (Fresh-new c.sums)
    ∙ ap (λ r. ok (record { raw = r; sums = c.sums; marked = unmarked c.sums })) (sym v.rendered)
