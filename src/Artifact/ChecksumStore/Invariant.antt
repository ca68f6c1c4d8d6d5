-- ===== src/Artifact/ChecksumStore/Invariant.antt =====
-- The well-formedness of a `ChecksumStore` of artifact/checksum.go, and that its operations keep it.
use mender_artifact.Prelude.{
  Bool, true, false, List, [], ◌∷◌, ◌++◌, none, some, ◌≡◌, ◌≢◌, refl, sym, ap, subst, ◌∙◌, inl, inr,
  arith, Bytes, eqb_iff, All, All-append, length, ◌==◌, Option-cases, Bool-cases, append_assoc,
  append-nil, trim_space,
}
use mender_artifact.Prelude.Result.{ok, err, >>=-eq-ok}
use mender_artifact.Prelude.Dict.{
  Dict, lookup, insert, keys, keys-append, insert-append, keys-insert_present, lookup-none-keys,
  bytes_eq,
}
use mender_artifact.Artifact.ChecksumStore.{
  ChecksumStore, StoreError, add, get, get_and_mark, manifest_line, read_checksums, two_chunks,
  read_lines, read_raw,
}

abbrev pub Distinct : List Bytes → Type 0
Distinct [] = Unit
Distinct (x ∷ xs) = All (λ y. y ≢ x) xs × Distinct xs

-- The text of a manifest with these entries, in this order.
unfoldable pub render : Dict Bytes Bytes → Bytes
render [] = []
render ((file, sum) ∷ m) = manifest_line sum file ++ render m

-- The two maps have the same keys, each once, and `raw` spells the entries in their order.
pub record IsValid (c : ChecksumStore) : Type 0 where
  pub same_keys : keys c.sums ≡ keys c.marked
  pub distinct : Distinct (keys c.sums)
  pub rendered : c.raw ≡ render c.sums

render-append : (m n : Dict Bytes Bytes) → render (m ++ n) ≡ render m ++ render n
unfolding render
render-append [] n = refl
render-append ((file, sum) ∷ m) n =
    ap (λ t. manifest_line sum file ++ t) (render-append m n)
    ∙ sym (append_assoc (manifest_line sum file) (render m) (render n))

pub fresh-keys : (k : Bytes) (m : Dict Bytes Bytes) → lookup k m ≡ none → All (λ y. y ≢ k) (keys m)
unfolding lookup
fresh-keys k [] h = tt
fresh-keys k ((j, v) ∷ m) h =
    (λ e. ground (arith, eqb_iff j k), fresh-keys k m (ground (arith, eqb_iff j k)))

fresh_sym : (k : Bytes) (xs : List Bytes) → All (λ y. y ≢ k) xs → All (λ y. k ≢ y) xs
fresh_sym k [] h = tt
fresh_sym k (x ∷ xs) h = (λ e. h.0 (sym e), fresh_sym k xs h.1)

pub Distinct-concat :
    (k : Bytes) (xs : List Bytes) → Distinct xs → All (λ y. y ≢ k) xs → Distinct (xs ++ k ∷ [])
Distinct-concat k [] d h = (tt, tt)
Distinct-concat k (x ∷ xs) d h =
    (All-append (λ y. y ≢ x) xs (k ∷ []) d.0 (λ e. h.0 (sym e), tt), Distinct-concat k xs d.1 h.1)

-- `Add` of a new file: what the store is afterwards.
pub add-eq-ok :
    (file sum : Bytes) (c : ChecksumStore) {c' : ChecksumStore}
    → IsValid c
    → add file sum c ≡ ok c'
    → (lookup file c.sums ≡ none)
      × (c' ≡ record {
        raw = c.raw ++ manifest_line sum file;
        sums = c.sums ++ (file, sum) ∷ [];
        marked = c.marked ++ (file, false) ∷ [];
      })
unfolding add
add-eq-ok file sum c {c'} v h = elim (Option-cases (lookup file c.sums)) [
  | inl fresh ↦ (
    fresh,
    ground (
      arith,
      fresh,
      insert-append file sum c.sums fresh,
      insert-append file false c.marked (lookup-none-keys file c.sums c.marked v.same_keys fresh),
    ),
  )
  | inr (s, old) ↦ ground (arith, old)
]

appended-IsValid :
    (file sum : Bytes) (c : ChecksumStore)
    → IsValid c
    → lookup file c.sums ≡ none
    → IsValid (record {
      raw = c.raw ++ manifest_line sum file;
      sums = c.sums ++ (file, sum) ∷ [];
      marked = c.marked ++ (file, false) ∷ [];
    })
unfolding render
appended-IsValid file sum c v fresh = record {
  same_keys =
      keys-append c.sums _ ∙ ap (λ ks. ks ++ file ∷ []) v.same_keys ∙ sym (keys-append c.marked _);
  distinct =
      rw (keys-append c.sums ((file, sum) ∷ []))
        (Distinct-concat file _ v.distinct (fresh-keys file c.sums fresh));
  rendered =
      ap (λ r. r ++ manifest_line sum file) v.rendered
      ∙ ap (λ l. render c.sums ++ l) (sym (append-nil (manifest_line sum file)))
      ∙ sym (render-append c.sums ((file, sum) ∷ []));
}

pub add-IsValid :
    (file sum : Bytes) (c : ChecksumStore) {c' : ChecksumStore}
    → IsValid c
    → add file sum c ≡ ok c'
    → IsValid c'
add-IsValid file sum c v h =
    let (fresh, e) = add-eq-ok file sum c v h in rw e (appended-IsValid file sum c v fresh)

-- `Add` refuses a file that is there.
pub add_twice :
    (file sum : Bytes) (c : ChecksumStore) {old : Bytes}
    → lookup file c.sums ≡ some old
    → add file sum c ≡ err StoreError.exist
unfolding add
add_twice file sum c h = ground arith

pub get_and_mark-eq-ok :
    (file : Bytes) (c : ChecksumStore) {sum : Bytes} {c' : ChecksumStore}
    → get_and_mark file c ≡ ok (sum, c')
    → (lookup file c.sums ≡ some sum) × (c' ≡ record c { marked = insert file true c.marked })
unfolding get_and_mark get
get_and_mark-eq-ok file c h = ground arith

-- A file that is in one of two maps with the same keys is in the other.
pub present-keys :
    (k : Bytes) (c : ChecksumStore) {sum : Bytes}
    → IsValid c
    → lookup k c.sums ≡ some sum
    → (mark : Bool) × (lookup k c.marked ≡ some mark)
present-keys k c v h = elim (Option-cases (lookup k c.marked)) [
  | inl gone ↦ cc (h, lookup-none-keys k c.marked c.sums (sym v.same_keys) gone)
  | inr found ↦ found
]

pub get_and_mark-IsValid :
    (file : Bytes) (c : ChecksumStore) {sum : Bytes} {c' : ChecksumStore}
    → IsValid c
    → get_and_mark file c ≡ ok (sum, c')
    → IsValid c'
get_and_mark-IsValid file c v h =
    let (found, e) = get_and_mark-eq-ok file c h in
    let (mark, there) = present-keys file c v found in
    rw e (record {
      same_keys = v.same_keys ∙ sym (keys-insert_present file true mark c.marked there);
      distinct = v.distinct;
      rendered = v.rendered;
    })

-- `ReadRaw` changes the store by `Add` alone: what each `Add` keeps, it keeps.
module _ {ℓ} (P : ChecksumStore → Type ℓ)
    (step : (file sum : Bytes) (c c' : ChecksumStore) → P c → add file sum c ≡ ok c' → P c') where
  keep_chunks :
      (line : Bytes) (parts : List Bytes) (c : ChecksumStore) {c' : ChecksumStore}
      → P c
      → two_chunks line parts c ≡ ok c'
      → P c'
  unfolding two_chunks
  keep_chunks line (sum ∷ file ∷ []) c {c'} v h = step file sum c c' v h
  keep_chunks line _ c v h = cc

  keep_checksums :
      (line : Bytes) (c : ChecksumStore) {c' : ChecksumStore}
      → P c
      → read_checksums line c ≡ ok c'
      → P c'
  unfolding read_checksums
  keep_checksums line c {c'} v h = elim (Bool-cases (length (trim_space line) == 0)) [
    | inl blank ↦ subst P (ground (arith, blank)) v
    | inr full ↦ keep_chunks line _ c v (rw full at h)
  ]

  keep_lines :
      (text line : Bytes) (c : ChecksumStore) {c' : ChecksumStore}
      → P c
      → read_lines text line c ≡ ok c'
      → P c'
  unfolding read_lines
  keep_lines [] line c v h = subst P (ground arith) v
  keep_lines (b ∷ rest) line c {c'} v h = elim (Bool-cases (b == b'\n')) [
    | inl end ↦
        let (d, first, later) =
          >>=-eq-ok (read_checksums (line ++ b ∷ []) c) (λ c'. read_lines rest [] c')
            (rw (end, read_lines) at h) in
        keep_lines rest [] d (keep_checksums _ c v first) later
    | inr more ↦ keep_lines rest (line ++ b ∷ []) c v (rw (more, read_lines) at h)
  ]

  pub read_raw_keep :
      (text : Bytes) (c : ChecksumStore) {c' : ChecksumStore} → P c → read_raw text c ≡ ok c' → P c'
  unfolding read_raw
  read_raw_keep text c v h = keep_lines text [] c v h

-- `ReadRaw` keeps the invariant: the maps have the same keys, each once, and `GetRaw` returns the
-- lines of exactly the entries that the store has, in the order in which they were added.
pub read_raw-IsValid :
    (text : Bytes) (c : ChecksumStore) {c' : ChecksumStore}
    → IsValid c
    → read_raw text c ≡ ok c'
    → IsValid c'
read_raw-IsValid = read_raw_keep IsValid (λ file sum c c' v h. add-IsValid file sum c v h)
