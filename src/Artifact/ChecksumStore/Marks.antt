-- ===== src/Artifact/ChecksumStore/Marks.antt =====
-- What `Add`, `Get`, `GetAndMark` and `FilesNotMarked` of artifact/checksum.go do to one another.
use mender_artifact.Prelude.{
  Bool, true, false, not, ◌&&◌, ◌||◌, List, [], ◌∷◌, some, ◌≡◌, ◌≢◌, refl, subst, arith, Bytes, eqb,
  eqb_iff, All, if◌then◌else◌,
}
use mender_artifact.Prelude.Result.{ok, err}
use mender_artifact.Prelude.Dict.{Dict, lookup, insert, lookup-insert, keys, bytes_eq}
use mender_artifact.Artifact.ChecksumStore.{
  ChecksumStore, checksum_missing, add, get, get_and_mark, files_not_marked, not_marked, read_raw,
}
use mender_artifact.Artifact.ChecksumStore.Invariant.{
  Distinct, IsValid, get_and_mark-eq-ok, present-keys, read_raw_keep,
}

-- Whether a list of names has this one.
unfoldable pub contains : Bytes → List Bytes → Bool
contains j [] = false
contains j (x ∷ xs) = eqb x j || contains j xs

not_marked-fresh :
    (j : Bytes) (m : Dict Bytes Bool)
    → All (λ y. y ≢ j) (keys m)
    → contains j (not_marked m) ≡ false
unfolding contains not_marked
not_marked-fresh j [] h = refl
not_marked-fresh j ((i, b) ∷ m) h = ground (arith, eqb_iff i j, not_marked-fresh j m h.1)

not_marked-insert :
    (j k : Bytes) {b : Bool} (m : Dict Bytes Bool)
    → Distinct (keys m)
    → lookup k m ≡ some b
    → contains j (not_marked (insert k true m)) ≡ (contains j (not_marked m) && not (eqb k j))
unfolding contains not_marked lookup insert
not_marked-insert j k [] d h = cc
not_marked-insert j k {b} ((i, mark) ∷ m) d h = ground (
  arith,
  eqb_iff i k,
  eqb_iff k j,
  eqb_iff i j,
  not_marked-insert j k {b = b} m d.1,
  not_marked-fresh i m d.0,
)

-- `GetAndMark` takes exactly its own file off the list of `FilesNotMarked`.
pub files_not_marked-get_and_mark :
    (file j : Bytes) (c : ChecksumStore) {sum : Bytes} {c' : ChecksumStore}
    → IsValid c
    → get_and_mark file c ≡ ok (sum, c')
    → contains j (files_not_marked c') ≡ (contains j (files_not_marked c) && not (eqb file j))
unfolding files_not_marked
files_not_marked-get_and_mark file j c v h =
    let (found, e) = get_and_mark-eq-ok file c h in
    let (mark, there) = present-keys file c v found in
    rw e (not_marked-insert j file c.marked (subst Distinct v.same_keys v.distinct) there)

-- After `Add` of a file that was not there, `Get` finds its sum there and what it found before
-- elsewhere.
pub get-add :
    (file sum j : Bytes) (c : ChecksumStore) {c' : ChecksumStore}
    → add file sum c ≡ ok c'
    → (get file c ≡ err (checksum_missing file))
      × (get j c' ≡ (if eqb file j then ok sum else get j c))
unfolding add get
get-add file sum j c h = ground (arith, lookup-insert file j sum c.sums)

-- What a store `c` says of the files that it has, a later one says too.
record Extends (c d : ChecksumStore) : Type 0 where
  sums : (j s : Bytes) → lookup j c.sums ≡ some s → lookup j d.sums ≡ some s
  marks : (j s : Bytes) → lookup j c.sums ≡ some s → lookup j d.marked ≡ lookup j c.marked

add-Extends :
    (c : ChecksumStore) (file sum : Bytes) (d d' : ChecksumStore)
    → Extends c d
    → add file sum d ≡ ok d'
    → Extends c d'
unfolding add
add-Extends c file sum d d' x h = record {
  sums = λ j s e. ground (arith, lookup-insert file j sum d.sums, x.sums j s e, eqb_iff file j);
  marks = λ j s e.
      ground
        (arith, lookup-insert file j false d.marked, x.sums j s e, x.marks j s e, eqb_iff file j);
}

-- Reading a second manifest into a store changes neither the checksum nor the mark of a file that
-- the store has: the augmented manifest cannot replace an entry of the signed one.
pub read_raw_keeps_entries :
    (text : Bytes) (c : ChecksumStore) {c' : ChecksumStore} (file sum : Bytes)
    → read_raw text c ≡ ok c'
    → get file c ≡ ok sum
    → (get file c' ≡ ok sum) × (lookup file c'.marked ≡ lookup file c.marked)
unfolding get
read_raw_keeps_entries text c {c'} file sum h g =
    let start : Extends c c = record { sums = λ j s e. e; marks = λ j s e. refl } in
    let x = read_raw_keep (Extends c) (add-Extends c) text c start h in
    ground (arith, x.sums file sum, x.marks file sum)
