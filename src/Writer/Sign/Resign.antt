-- ===== src/Writer/Sign/Resign.antt =====
-- What `SignExisting` of awriter/signer.go makes of an archive that can be read to its end.
use mender_artifact.Prelude.{
  ℕ, length, Bool, true, false, not, ◌&&◌, ◌||◌, List, [], ◌∷◌, Option, some, ◌≡◌, inl, inr, refl,
  sym, subst, ◌∙◌, arith, Bytes, codes, eqb, eqb_iff, if◌then◌else◌, Bool-cases,
}
use mender_artifact.Prelude.Result.{ok, err, ok_injective}
use mender_artifact.Tar.{full, Entry, Tar, entry, eof, broken}
use mender_artifact.Handlers.Compose.{stream_entry}
use mender_artifact.Reader.Header.{bytes_of}
use mender_artifact.Writer.{archive}
use mender_artifact.Writer.Sign.{
  already_existing_signature, manifest_not_found, sign_manifest_and_output_signature, copy_entry,
  sign_entries, sign_existing,
}

-- Every body is whole, and the archive ends.
abbrev pub IsComplete : Tar → Type 0
IsComplete eof = Unit
IsComplete broken = ⊥
IsComplete (entry e t) = ((text : Bytes) × (e.body ≡ full text)) × IsComplete t

abbrev pub has_entry : Bytes → Tar → Bool
has_entry name eof = false
has_entry name broken = false
has_entry name (entry e t) = eqb e.name name || has_entry name t

-- The entries in their order, without the signatures, and the new signature behind each manifest.
unfoldable pub resigned : (Bytes → Bytes) → Tar → List Entry
resigned sig eof = []
resigned sig broken = []
resigned sig (entry e t) =
    let rest = resigned sig t in
    if eqb e.name (codes "manifest")
    then e ∷ stream_entry (codes "manifest.sig") (sig (bytes_of e.body)) ∷ rest
    else if eqb e.name (codes "manifest.sig")
    then rest
    else e ∷ rest

module _ (sig : Bytes → Bytes) (sign : Bytes → Option Bytes) (one_read : Bytes → ℕ)
    (signs : (m : Bytes) → sign m ≡ some (sig m))
    (reads : (m : Bytes) → one_read m ≡ length m) where
  sign_entries-resigned :
      (overwrite : Bool) (t : Tar)
      → IsComplete t
      → (not overwrite && has_entry (codes "manifest.sig") t) ≡ false
      → sign_entries sign one_read overwrite t ≡ ok (has_entry (codes "manifest") t, resigned sig t)
  unfolding sign_entries resigned sign_manifest_and_output_signature copy_entry eqb
  sign_entries-resigned overwrite eof c h = refl
  sign_entries-resigned overwrite broken c h = absurd c
  sign_entries-resigned overwrite (entry e t) ((text, whole), c) h =
      let later : (not overwrite && has_entry (codes "manifest.sig") t) ≡ false = ground arith in
      let rest = sign_entries-resigned overwrite t c later in
      elim (Bool-cases (eqb e.name (codes "manifest"))) [
        | inl is ↦ ground (arith, is, whole, signs text, reads text, rest)
        | inr n1 ↦ elim (Bool-cases (eqb e.name (codes "manifest.sig"))) [
          | inl is ↦ ground (arith, n1, is, whole, rest, h)
          | inr n2 ↦ ground (arith, n1, n2, whole, rest)
        ]
      ]

  -- The old signature stops it before the end of the archive is seen.
  sign_entries_refused :
      (t : Tar)
      → IsComplete t
      → has_entry (codes "manifest.sig") t ≡ true
      → sign_entries sign one_read false t ≡ err already_existing_signature
  unfolding sign_entries sign_manifest_and_output_signature copy_entry eqb
  sign_entries_refused eof c h = cc
  sign_entries_refused broken c h = absurd c
  sign_entries_refused (entry e t) ((text, whole), c) h =
      elim (Bool-cases (eqb e.name (codes "manifest.sig"))) [
        | inl is ↦ ground (arith, (eqb_iff e.name (codes "manifest.sig")).0 is, is)
        | inr n2 ↦
            let rest = sign_entries_refused t c (ground arith) in
            elim (Bool-cases (eqb e.name (codes "manifest"))) [
              | inl is ↦ ground (arith, is, whole, signs text, reads text, rest)
              | inr n1 ↦ ground (arith, n1, n2, whole, rest)
            ]
      ]

  -- With a key that signs every message, in one run each in one way, and a source that delivers a whole manifest to one `Read` (else
  -- it is refused), `SignExisting` does to an archive that can be read to its end
  -- one of three things: it refuses an old signature unless it may overwrite it, it reports that there
  -- is no manifest, or it writes the entries in their order, each whole, without the old signatures
  -- and with the signature of a manifest's bytes right behind the manifest.
  pub sign_existing-resigned :
      (overwrite : Bool) (t : Tar)
      → IsComplete t
      → sign_existing sign one_read overwrite t ≡ (
          if not overwrite && has_entry (codes "manifest.sig") t
          then err already_existing_signature
          else if has_entry (codes "manifest") t
          then ok (resigned sig t)
          else err manifest_not_found)
  unfolding sign_existing
  sign_existing-resigned overwrite t c =
      elim (Bool-cases (not overwrite && has_entry (codes "manifest.sig") t)) [
        | inl old ↦
            let keep : overwrite ≡ false = ground arith in
            let there : has_entry (codes "manifest.sig") t ≡ true = ground arith in
            ground (arith, keep, there, sign_entries_refused t c there)
        | inr allowed ↦ ground (arith, sign_entries-resigned overwrite t c allowed, allowed)
      ]

  resigned-IsComplete : (t : Tar) → IsComplete t → IsComplete (archive (resigned sig t))
  unfolding resigned
  resigned-IsComplete eof c = tt
  resigned-IsComplete broken c = tt
  resigned-IsComplete (entry e t) (whole, c) =
      let rest = resigned-IsComplete t c in
      elim (Bool-cases (eqb e.name (codes "manifest"))) [
        | inl is ↦ rw is (whole, ((sig (bytes_of e.body), refl), rest))
        | inr n1 ↦ elim (Bool-cases (eqb e.name (codes "manifest.sig"))) [
          | inl is ↦ rw (n1, is) rest
          | inr n2 ↦ rw (n1, n2) (whole, rest)
        ]
      ]

  has_entry-resigned :
      (t : Tar)
      → has_entry (codes "manifest") (archive (resigned sig t)) ≡ has_entry (codes "manifest") t
  unfolding resigned eqb
  has_entry-resigned eof = refl
  has_entry-resigned broken = refl
  has_entry-resigned (entry e t) =
      let rest = has_entry-resigned t in
      elim (Bool-cases (eqb e.name (codes "manifest"))) [
        | inl is ↦ ground (arith, is, rest)
        | inr n1 ↦ elim (Bool-cases (eqb e.name (codes "manifest.sig"))) [
          | inl is ↦ ground (arith, (eqb_iff e.name (codes "manifest.sig")).0 is, n1, is, rest)
          | inr n2 ↦ ground (arith, n1, n2, rest)
        ]
      ]

module _ (sig sig' : Bytes → Bytes) where
  resigned-archive : (t : Tar) → resigned sig' (archive (resigned sig t)) ≡ resigned sig' t
  unfolding resigned eqb
  resigned-archive eof = refl
  resigned-archive broken = refl
  resigned-archive (entry e t) =
      let rest = resigned-archive t in
      elim (Bool-cases (eqb e.name (codes "manifest"))) [
        | inl is ↦ ground (arith, is, rest)
        | inr n1 ↦ elim (Bool-cases (eqb e.name (codes "manifest.sig"))) [
          | inl is ↦ ground (arith, n1, is, rest)
          | inr n2 ↦ ground (arith, n1, n2, rest)
        ]
      ]

same_answer :
    {a b : Bool} {r s : List Entry}
    → a ≡ b
    → r ≡ s
    → (if a then ok r else err manifest_not_found) ≡ (if b then ok s else err manifest_not_found)
same_answer p q = rw (p, q) refl

-- To sign again, with any key and leave to overwrite, an archive that `SignExisting` has signed gives
-- what signing the first archive with that key gives: nothing of the first signature is left. Both
-- keys sign every message, the first archive can be read to its end, and both sources deliver a whole
-- manifest to one `Read`. The answers of the two runs may differ, also for the same key.
pub sign_existing_twice :
    (sig sig' : Bytes → Bytes) (sign sign' : Bytes → Option Bytes) (one_read one_read' : Bytes → ℕ)
    → ((m : Bytes) → sign m ≡ some (sig m))
    → ((m : Bytes) → sign' m ≡ some (sig' m))
    → ((m : Bytes) → one_read m ≡ length m)
    → ((m : Bytes) → one_read' m ≡ length m)
    → (overwrite : Bool) (t : Tar) (es : List Entry) → IsComplete t
    → sign_existing sign one_read overwrite t ≡ ok es
    → sign_existing sign' one_read' true (archive es) ≡ sign_existing sign' one_read' true t
sign_existing_twice sig sig' sign sign' one_read one_read' signs signs' reads reads' overwrite t es
      c h =
    let first = sym (sign_existing-resigned sig sign one_read signs reads overwrite t c) ∙ h in
    let again : (u : Tar)
        → IsComplete u
        → sign_existing sign' one_read' true u ≡ (
            if has_entry (codes "manifest") u
            then ok (resigned sig' u)
            else err manifest_not_found) =
      sign_existing-resigned sig' sign' one_read' signs' reads' true in
    elim (Bool-cases (not overwrite && has_entry (codes "manifest.sig") t)) [
      | inl old ↦ cc (rw (old) at first)
      | inr allowed ↦ elim (Bool-cases (has_entry (codes "manifest") t)) [
        | inr none_there ↦ cc (rw (allowed, none_there) at first)
        | inl there ↦
            let same : resigned sig t ≡ es = ok_injective (rw (allowed, there) at first) in
            subst
              (λ l.
                sign_existing sign' one_read' true (archive l)
                ≡ sign_existing sign' one_read' true t)
              same
              (again (archive (resigned sig t))
                  (resigned-IsComplete sig sign one_read signs reads t c)
                ∙ same_answer (has_entry-resigned sig sign one_read signs reads t)
                    (resigned-archive sig sig' t)
                ∙ sym (again t c))
      ]
    ]
